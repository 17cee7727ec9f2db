-- ===== src/SEngine/Flow/Sequence.antt =====
-- s_engine/se_builtins/flow_control.py: `se_sequence` and `se_sequence_once`.
pub mod Cursor
use robot_person.Base.{
  ℕ, zero, ◌+◌, String, Bool, true, false, ◌||◌, Option, none, some, List, [], ◌∷◌, ◌==◌, str_eq,
  get_elem?, drop, if◌then◌else◌,
}
use robot_person.SEngine.Codes.{
  Code, event_init, event_terminate, se_function_halt, se_pipeline_continue, se_pipeline_halt,
  se_pipeline_disable, se_pipeline_terminate, se_pipeline_reset, is_application, is_function,
}
use robot_person.SEngine.State.{Cell, EventData, Action, pure, get_cell, modify_cell, ◌>>=◌, ◌>>◌}
use robot_person.SEngine.Handle.{Handle, is_m_call}
use robot_person.SEngine.Dispatch.{invoke_any}
use robot_person.SEngine.Lifecycle.{terminate_child, if_child}

-- `node["state"] = n`
unfoldable pub set_state : ℕ → ℕ → Action (Unit {0})
set_state i n = modify_cell i (λ c. record c { state = n })

-- `if child.get("initialized"): child_terminate(…)`
unfoldable pub terminate_initialized : Handle → Action (Unit {0})
terminate_initialized h = do c ← get_cell h.id; if c.initialized then terminate_child h else pure tt

-- `r in (PIPELINE_DISABLE, PIPELINE_TERMINATE, PIPELINE_RESET)`
abbrev pub is_finished : Code → Bool
is_finished r = r == se_pipeline_disable || r == se_pipeline_terminate || r == se_pipeline_reset

-- what the sequence returns for a child's code that does not advance it
unfoldable pub paused_code : Code → Code
paused_code r =
    if is_application r
    then r
    else if is_function r
    then if r == se_function_halt then se_pipeline_halt else r
    else se_pipeline_continue

-- `while node["state"] < n`: the children from the cursor `s` on. The body leaves the loop or ends
-- by `node["state"] = s + 1`, so the next test is at `s + 1` whatever the child did.
unfoldable pub sequence_loop : ℕ → ℕ → List Handle → String → EventData → Action Code
sequence_loop i s [] event_id event_data = pure se_pipeline_disable
sequence_loop i s (h ∷ hs) event_id event_data =
    let advance = (do set_state i (s + 1); sequence_loop i (s + 1) hs event_id event_data) in
    do
      r ← invoke_any h event_id event_data
      if is_m_call h.call_type
          then if is_finished r then (do terminate_child h; advance) else pure (paused_code r)
          else advance

unfoldable pub se_sequence : ℕ → List Handle → String → EventData → Action Code
se_sequence i children event_id event_data =
    if str_eq event_id event_init
    then (do set_state i 0; pure se_pipeline_continue)
    else if str_eq event_id event_terminate
    then (do
      c ← get_cell i
      if_child (get_elem? children c.state) terminate_initialized
      set_state i 0
      pure se_pipeline_continue)
    else do c ← get_cell i; sequence_loop i c.state (drop c.state children) event_id event_data

-- `for …: if child.get("initialized"): child_terminate(…)`
unfoldable pub terminate_all_initialized : List Handle → Action (Unit {0})
terminate_all_initialized [] = pure tt
terminate_all_initialized (h ∷ hs) = do terminate_initialized h; terminate_all_initialized hs

-- the first loop of a tick, with its `break`
unfoldable pub once_loop : List Handle → String → EventData → Action (Unit {0})
once_loop [] event_id event_data = pure tt
once_loop (h ∷ hs) event_id event_data =
    let rest = once_loop hs event_id event_data in
    do
      r ← invoke_any h event_id event_data
      if is_m_call h.call_type
          then if r == se_pipeline_continue || r == se_pipeline_disable then rest else pure tt
          else rest

unfoldable pub se_sequence_once : ℕ → List Handle → String → EventData → Action Code
se_sequence_once i children event_id event_data =
    if str_eq event_id event_init
    then (do set_state i 0; pure se_pipeline_continue)
    else if str_eq event_id event_terminate
    then (do terminate_all_initialized children; set_state i 0; pure se_pipeline_continue)
    else do
      once_loop children event_id event_data
      terminate_all_initialized children
      pure se_pipeline_disable
