-- ===== src/SEngine/Flow/Trigger.antt =====
-- s_engine/se_builtins/flow_control.py: `se_trigger_on_change`.
use robot_person.Base.{ℕ, String, Bool, ◌&&◌, List, ◌==◌, ltb, leb, str_eq, length, if◌then◌else◌}
use robot_person.SEngine.Codes.{Code, event_init, event_terminate, se_pipeline_continue}
use robot_person.SEngine.State.{EventData, Action, pure, raise, get_cell, value_error, ◌>>=◌, ◌>>◌}
use robot_person.SEngine.Handle.{Handle}
use robot_person.SEngine.Lifecycle.{child_invoke, child_invoke_pred, children_terminate_all}
use robot_person.SEngine.Flow.Sequence.{set_state, is_finished}
use robot_person.SEngine.Flow.Branch.{terminate_reset}

-- `_trigger_invoke_and_handle`
unfoldable pub trigger_invoke : List Handle → ℕ → String → EventData → Action Code
trigger_invoke children action_idx event_id event_data = do
  r ← child_invoke children action_idx event_id event_data
  if ltb r se_pipeline_continue
      then pure r
      else if is_finished r
      then (do terminate_reset children action_idx; pure se_pipeline_continue)
      else pure se_pipeline_continue

abbrev pub as_state : Bool → ℕ
as_state b = if b then 1 else 0

-- the edge from `prev` to `current`
unfoldable pub trigger_edge : List Handle → ℕ → ℕ → String → EventData → Action Code
trigger_edge children prev current event_id event_data =
    let has_falling = leb 3 (length children) in
    if prev == 0 && current == 1
    then (do
      (if has_falling then terminate_reset children 2 else pure tt)
      terminate_reset children 1
      trigger_invoke children 1 event_id event_data)
    else if prev == 1 && current == 0 && has_falling
    then (do
      terminate_reset children 1
      terminate_reset children 2
      trigger_invoke children 2 event_id event_data)
    else pure se_pipeline_continue

unfoldable pub se_trigger_on_change : ℕ → ℕ → List Handle → String → EventData → Action Code
se_trigger_on_change initial i children event_id event_data =
    if ltb (length children) 2
    then raise value_error
    else if str_eq event_id event_terminate
    then (do children_terminate_all children; pure se_pipeline_continue)
    else if str_eq event_id event_init
    then (do set_state i (if initial == 0 then 0 else 1); pure se_pipeline_continue)
    else do
      holds ← child_invoke_pred children 0
      c ← get_cell i
      set_state i (as_state holds)
      trigger_edge children c.state (as_state holds) event_id event_data
