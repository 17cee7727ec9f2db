-- ===== src/SEngine/Flow/Chain.antt =====
-- s_engine/se_builtins/flow_control.py: `se_chain_flow` and `se_while`.
use robot_person.Base.{
  ℕ, ◌+◌, String, ◌||◌, List, [], ◌∷◌, ◌==◌, ltb, str_eq, get_elem?, if◌then◌else◌,
}
use robot_person.SEngine.Codes.{
  Code, event_init, event_terminate, se_function_halt, se_pipeline_continue, se_pipeline_halt,
  se_pipeline_disable, se_pipeline_terminate, se_pipeline_reset, se_pipeline_skip_continue,
}
use robot_person.SEngine.State.{EventData, Action, pure, get_cell, ◌>>=◌, ◌>>◌}
use robot_person.SEngine.Handle.{Handle, is_m_call}
use robot_person.SEngine.Dispatch.{invoke_any}
use robot_person.SEngine.Lifecycle.{
  terminate_child, if_child, child_invoke, child_invoke_pred, child_terminate,
  child_reset_recursive, children_terminate_all, children_reset_all,
}
use robot_person.SEngine.Flow.Sequence.{set_state, terminate_initialized, is_finished}

-- `if active == 0` behind the loop
abbrev pub chain_result : ℕ → Code
chain_result active = if active == 0 then se_pipeline_disable else se_pipeline_continue

-- The loop of a tick over the children left, `active` counted so far; `children` are all of them.
unfoldable pub chain_loop : List Handle → ℕ → List Handle → String → EventData → Action Code
chain_loop children active [] event_id event_data = pure (chain_result active)
chain_loop children active (h ∷ hs) event_id event_data =
    let rest = λ (n : ℕ). chain_loop children n hs event_id event_data in
    do
      c ← get_cell h.id
      if c.active
          then (do
            r ← invoke_any h event_id event_data
            if is_m_call h.call_type
                then if r == se_function_halt
                  then pure se_pipeline_halt
                  else if ltb r se_pipeline_continue
                  then pure r
                  else if r == se_pipeline_continue
                  then rest (active + 1)
                  else if r == se_pipeline_halt
                  then pure se_pipeline_continue
                  else if r == se_pipeline_disable
                  then (do terminate_child h; rest active)
                  else if r == se_pipeline_terminate
                  then (do children_terminate_all children; pure se_pipeline_terminate)
                  else if r == se_pipeline_reset
                  then (do
                    children_terminate_all children
                    children_reset_all children
                    pure se_pipeline_continue)
                  else if r == se_pipeline_skip_continue
                  then pure (chain_result (active + 1))
                  else rest (active + 1)
                else do terminate_child h; rest active)
          else rest active

unfoldable pub se_chain_flow : List Handle → String → EventData → Action Code
se_chain_flow children event_id event_data =
    if str_eq event_id event_init
    then pure se_pipeline_continue
    else if str_eq event_id event_terminate
    then (do children_terminate_all children; pure se_pipeline_continue)
    else chain_loop children 0 children event_id event_data

abbrev pub while_eval_pred : ℕ
while_eval_pred = 0

abbrev pub while_run_body : ℕ
while_run_body = 1

-- the body's turn: the code for the parent by the code of children[1]
unfoldable pub while_body : ℕ → List Handle → String → EventData → Action Code
while_body i children event_id event_data = do
  r ← child_invoke children 1 event_id event_data
  if ltb r se_pipeline_continue
      then pure r
      else if r == se_pipeline_continue || r == se_pipeline_halt || r == se_pipeline_skip_continue
      then pure se_function_halt
      else if is_finished r
      then (do
        child_terminate children 1
        child_reset_recursive children 1
        set_state i while_eval_pred
        pure se_pipeline_halt)
      else pure se_pipeline_disable

unfoldable pub se_while : ℕ → List Handle → String → EventData → Action Code
se_while i children event_id event_data =
    if str_eq event_id event_terminate
    then (do if_child (get_elem? children 1) terminate_initialized; pure se_pipeline_continue)
    else if str_eq event_id event_init
    then (do set_state i while_eval_pred; pure se_pipeline_continue)
    else do
      c ← get_cell i
      if c.state == while_eval_pred
          then (do
            holds ← child_invoke_pred children 0
            if holds
                then (do
                  child_reset_recursive children 1
                  set_state i while_run_body
                  while_body i children event_id event_data)
                else pure se_pipeline_disable)
          else while_body i children event_id event_data
