-- ===== src/ChainTree/Builtins/Waits.antt =====
-- chain_tree/ct_builtins/wait.py: waiting for a time, for an event, and the timeout of a wait.
pub mod Timeouts
use robot_person.Base.{
  ℕ, ◌+◌, ◌==◌, String, Bool, true, false, Option, none, some, leb, ltb, str_eq, if◌then◌else◌,
}
use robot_person.ChainTree.Codes.{CflCode, cfl_halt, cfl_disable, cfl_timer_event}
use robot_person.ChainTree.Values.{Datum, Event}
use robot_person.ChainTree.State.{Kb, NodeData, Action, pure, get_data, modify_data, ◌>>=◌, ◌>>◌}
use robot_person.ChainTree.Node.{Program, MainFn}
use robot_person.ChainTree.Engine.MainLoop.{read_time}
use robot_person.ChainTree.Builtins.{ask, escalate}

-- whether an event is the one that a node waits for
abbrev pub is_target : String → Option String → Bool
is_target event_id none = false
is_target event_id (some target) = str_eq event_id target

abbrev pub start_or : Option ℕ → ℕ → ℕ
start_or none now = now
start_or (some start) now = start

module _ (p : Program) where
  unfoldable pub cfl_wait_time_init : Kb → ℕ → Action (Unit {0})
  cfl_wait_time_init kb i = do
    now ← read_time p
    modify_data i (λ d. record d { start_time = some now })

  unfoldable pub cfl_wait_time_main : MainFn
  cfl_wait_time_main kb name i event =
      if str_eq event.event_id cfl_timer_event
      then (do
        now ← read_time p
        d ← get_data i
        pure (if leb (start_or d.start_time now + d.time_delay) now then cfl_disable else cfl_halt))
      else pure cfl_halt

  -- The timeout of a wait: `timeout` of its events, counted, and none at 0.
  unfoldable pub count_timeout : Kb → ℕ → Event → Action CflCode
  count_timeout kb i event = do
    d ← get_data i
    if d.timeout == 0
        then pure cfl_halt
        else if str_eq event.event_id d.timeout_event_id
        then (do
          modify_data i (λ e. record e { timeout_count = e.timeout_count + 1 })
          if ltb (d.timeout_count + 1) d.timeout then pure cfl_halt else escalate p kb i)
        else pure cfl_halt

  unfoldable pub cfl_wait_main : MainFn
  cfl_wait_main kb name i event = do
    satisfied ← ask p false name kb i event
    if satisfied then pure cfl_disable else count_timeout kb i event

unfoldable pub cfl_wait_init : Kb → ℕ → Action (Unit {0})
cfl_wait_init kb i = modify_data i (λ d. record d { current_count = 0; timeout_count = 0 })

unfoldable pub cfl_wait_for_event : Kb → ℕ → String → String → Datum → Action Bool
cfl_wait_for_event kb i event_type event_id payload = do
  d ← get_data i
  if is_target event_id d.target_event_id
      then (do
        modify_data i (λ e. record e { current_count = e.current_count + 1 })
        pure (leb d.target_count (d.current_count + 1)))
      else pure false
