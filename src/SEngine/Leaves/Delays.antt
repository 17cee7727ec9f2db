-- ===== src/SEngine/Leaves/Delays.antt =====
-- s_engine/se_builtins/delays.py and return_codes.py. Deadlines are integers of nanoseconds.
pub mod Timing
use robot_person.Base.{
  ℕ, ℤ, pos, ◌+ℤ◌, leb_ℤ, String, Bool, true, false, not, ◌&&◌, ◌||◌, Option, none, some, ◌==◌, leb,
  str_eq, if◌then◌else◌,
}
use robot_person.SEngine.Codes.{
  Code, event_init, event_tick, event_terminate, se_pipeline_continue, se_pipeline_halt,
  se_pipeline_disable, se_pipeline_terminate,
}
use robot_person.SEngine.Values.{Seconds, is_positive}
use robot_person.SEngine.State.{
  UserData, deadline, EventData, Action, Env, pure, raise, get_cell, read_time, type_error, ◌>>=◌,
  ◌>>◌,
}
use robot_person.SEngine.Flow.Branch.{set_user_data}

abbrev pub is_lifecycle : String → Bool
is_lifecycle event_id = str_eq event_id event_init || str_eq event_id event_terminate

abbrev pub now_or : Env → Option ℕ → Action ℕ
now_or env none = read_time env
now_or env (some t) = pure t

-- `_now_ns`: the event's timestamp, or a reading of the clock
unfoldable pub now_ns : Env → EventData → Action ℕ
now_ns env event_data = now_or env event_data.timestamp

-- `node["user_data"]["deadline"]`; None cannot be indexed
abbrev pub deadline_of : UserData → Action ℤ
deadline_of (deadline t) = pure t
deadline_of _ = raise type_error

-- the deadline of a delay that starts now; one without a duration is over at once
abbrev pub delay_deadline : Env → Seconds → ℕ → ℤ
delay_deadline env seconds now = elim (is_positive seconds) [
  | true ↦ pos now +ℤ env.to_ns seconds
  | false ↦ pos now
]

unfoldable pub se_time_delay : Env → Seconds → ℕ → String → EventData → Action Code
se_time_delay env seconds i event_id event_data =
    if str_eq event_id event_init
    then (do
      now ← now_ns env event_data
      set_user_data i (deadline (delay_deadline env seconds now))
      pure se_pipeline_continue)
    else if str_eq event_id event_terminate
    then pure se_pipeline_continue
    else do
      now ← now_ns env event_data
      c ← get_cell i
      t ← deadline_of c.user_data
      pure (if leb_ℤ t (pos now) then se_pipeline_disable else se_pipeline_halt)

unfoldable pub se_wait_event : String → String → EventData → Action Code
se_wait_event target event_id event_data = pure (
    if is_lifecycle event_id
    then se_pipeline_continue
    else if str_eq event_id target
    then se_pipeline_disable
    else se_pipeline_halt)

unfoldable pub se_wait : Bool → String → EventData → Action Code
se_wait include_tick event_id event_data = pure (
    if is_lifecycle event_id
    then se_pipeline_continue
    else if str_eq event_id event_tick && not include_tick
    then se_pipeline_halt
    else se_pipeline_disable)

unfoldable pub se_wait_timeout : Env → String → Seconds → ℕ → String → EventData → Action Code
se_wait_timeout env target seconds i event_id event_data =
    if str_eq event_id event_init
    then (do
      now ← now_ns env event_data
      set_user_data i (deadline (pos now +ℤ env.to_ns seconds))
      pure se_pipeline_continue)
    else if str_eq event_id event_terminate
    then pure se_pipeline_continue
    else if str_eq event_id target
    then pure se_pipeline_disable
    else do
      now ← now_ns env event_data
      c ← get_cell i
      t ← deadline_of c.user_data
      pure (if leb_ℤ t (pos now) then se_pipeline_terminate else se_pipeline_halt)

unfoldable pub se_nop : String → EventData → Action Code
se_nop event_id event_data =
    pure (if is_lifecycle event_id then se_pipeline_continue else se_pipeline_disable)

-- return_codes.py, `_maker`: the leaf that returns a fixed code
unfoldable pub return_code : Code → String → EventData → Action Code
return_code code event_id event_data =
    pure (if is_lifecycle event_id then se_pipeline_continue else code)
