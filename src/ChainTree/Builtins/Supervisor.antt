-- ===== src/ChainTree/Builtins/Supervisor.antt =====
-- chain_tree/ct_builtins/supervisor.py: restarting failed children, within a limit per window.
pub mod Restarts
pub mod Window
use robot_person.Base.{
  ℕ, zero, suc, ◌+◌, String, Bool, true, false, not, ◌||◌, Option, none, some, List, [], ◌∷◌, ◌++◌,
  length, str_eq, leb, ltb, if◌then◌else◌,
}
use robot_person.ChainTree.Codes.{CflCode, cfl_continue, cfl_disable, cfl_timer_event}
use robot_person.ChainTree.Values.{Event}
use robot_person.ChainTree.State.{
  World, Kb, Control, SupervisorState, key_error, value_error, Action, pure, raise, gets,
  get_control, get_data, modify_control, ◌>>=◌, ◌>>◌,
}
use robot_person.ChainTree.Node.{Program, MainFn, is_enabled, select}
use robot_person.ChainTree.Engine.{terminate_node_tree}
use robot_person.ChainTree.Engine.MainLoop.{read_time}
use robot_person.ChainTree.Builtins.{ask, fire, enable_all}
use robot_person.ChainTree.Builtins.Sequence.{on_present}

-- `_purge`: the timestamps from the first that is not older than the window
abbrev pub purge : (window now : ℕ) → List ℕ → List ℕ
purge window now [] = []
purge window now (t ∷ ts) = elim (ltb (t + window) now) [
  | true ↦ purge window now ts
  | false ↦ t ∷ ts
]

unfoldable pub modify_supervisor : ℕ → (SupervisorState → SupervisorState) → Action (Unit {0})
modify_supervisor i f =
    modify_control i (λ c. record c { supervisor_state = on_present f c.supervisor_state })

-- the children from the first one that is not enabled
abbrev pub from_first_failed : World → List ℕ → List ℕ
from_first_failed s [] = []
from_first_failed s (c ∷ cs) = elim (is_enabled s c) [
  | true ↦ from_first_failed s cs
  | false ↦ c ∷ cs
]

abbrev pub failed_children : World → List ℕ → List ℕ
failed_children s children = select (λ c. not (is_enabled s c)) children

abbrev pub is_policy : String → Bool
is_policy policy =
    str_eq policy "ONE_FOR_ONE" || str_eq policy "ONE_FOR_ALL" || str_eq policy "REST_FOR_ALL"

-- the children that a policy restarts
unfoldable pub targets : String → List ℕ → World → Option (List ℕ)
unfolding if◌then◌else◌
targets policy children s =
    if str_eq policy "ONE_FOR_ONE"
    then some (failed_children s children)
    else if str_eq policy "ONE_FOR_ALL"
    then some children
    else if str_eq policy "REST_FOR_ALL"
    then some (from_first_failed s children)
    else none

module _ (p : Program) where
  unfoldable pub record_failure : ℕ → Action (Unit {0})
  record_failure i = do
    now ← read_time p
    modify_supervisor i (λ q. record q { failures = q.failures ++ now ∷ [] })

  unfoldable pub get_failure_count : ℕ → SupervisorState → Action ℕ
  get_failure_count i state = do
    now ← read_time p
    modify_supervisor i (λ q. record q { failures = purge q.window now q.failures })
    pure (length (purge state.window now state.failures))

  unfoldable pub is_threshold_exceeded : ℕ → SupervisorState → ℕ → Action Bool
  is_threshold_exceeded i state max_n = do n ← get_failure_count i state; pure (leb max_n n)

  unfoldable pub can_restart : ℕ → SupervisorState → Action Bool
  can_restart i state = do
    d ← get_data i
    if d.restart_enabled
        then if d.reset_limited_enabled
          then (do exceeded ← is_threshold_exceeded i state d.max_reset_number; pure (not exceeded))
          else pure true
        else pure false

  unfoldable pub fire_finalize : Kb → ℕ → Action (Unit {0})
  fire_finalize kb i = do d ← get_data i; fire p d.finalize_fn kb i

  unfoldable pub terminate_targets : Kb → List ℕ → Action (Unit {0})
  terminate_targets kb [] = pure tt
  terminate_targets kb (c ∷ cs) = do terminate_node_tree p kb c; terminate_targets kb cs

  unfoldable pub restart : Kb → ℕ → Option (List ℕ) → Action CflCode
  restart kb i none = raise value_error
  restart kb i (some children) = do
    terminate_targets kb children
    enable_all children
    modify_supervisor i (λ q. record q { reset_count = q.reset_count + 1 })
    record_failure i
    pure cfl_continue

  -- `failed` is what `failed_indices` holds, as nodes
  unfoldable pub supervise : Kb → ℕ → (failed : List ℕ) → SupervisorState → Action CflCode
  supervise kb i [] state = pure cfl_continue
  supervise kb i (f ∷ fs) state = do
    d ← get_data i
    chosen ← gets (targets d.termination_type (p.nodes i).children)
    allowed ← can_restart i state
    if allowed then restart kb i chosen else do fire_finalize kb i; pure cfl_disable

  unfoldable pub supervisor_tick : Kb → ℕ → List ℕ → Option SupervisorState → Action CflCode
  supervisor_tick kb i [] state = pure cfl_disable
  supervisor_tick kb i (c ∷ cs) none = raise key_error
  supervisor_tick kb i (c ∷ cs) (some state) = do
    failed ← gets (λ s. failed_children s (c ∷ cs))
    supervise kb i failed state

  unfoldable pub cfl_supervisor_main : MainFn
  cfl_supervisor_main kb name i event = do
    early ← ask p false name kb i event
    if early
        then pure cfl_disable
        else if str_eq event.event_id cfl_timer_event
        then (do c ← get_control i; supervisor_tick kb i (p.nodes i).children c.supervisor_state)
        else pure cfl_continue

  abbrev pub new_supervisor_state : ℕ → SupervisorState
  new_supervisor_state window = record { reset_count = 0; window = window; failures = [] }

  unfoldable pub cfl_supervisor_init : Kb → ℕ → Action (Unit {0})
  cfl_supervisor_init kb i = do
    d ← get_data i
    if is_policy d.termination_type
        then (do
          modify_control i
              (λ c. record c { supervisor_state = some (new_supervisor_state d.reset_window) })
          enable_all (p.nodes i).children)
        else raise value_error

unfoldable pub cfl_supervisor_term : Kb → ℕ → Action (Unit {0})
cfl_supervisor_term kb i = pure tt
