-- ===== src/SEngine/Flow/Fork.antt =====
-- s_engine/se_builtins/flow_control.py: the parallel operators `se_function_interface`, `se_fork`
-- and `se_fork_join`, and their shared child loop.
pub mod Joined
use robot_person.Base.{
  ℕ, zero, ◌+◌, String, Bool, true, false, ◌&&◌, ◌||◌, Option, none, some, List, [], ◌∷◌, ◌==◌, ltb,
  str_eq, if◌then◌else◌,
}
use robot_person.SEngine.Codes.{
  Code, event_init, event_terminate, se_function_halt, se_function_continue, se_function_disable,
  se_pipeline_continue, se_pipeline_halt, se_pipeline_disable, se_pipeline_terminate,
  se_pipeline_reset, se_pipeline_skip_continue,
}
use robot_person.SEngine.State.{Cell, EventData, Action, pure, get_cell, modify_cell, ◌>>=◌, ◌>>◌}
use robot_person.SEngine.Handle.{Handle, is_m_call, is_p_call}
use robot_person.SEngine.Dispatch.{invoke_any}
use robot_person.SEngine.Lifecycle.{
  terminate_child, reset_node_state, children_terminate_all, children_reset_all,
}
use robot_person.SEngine.Flow.Sequence.{set_state}

abbrev pub fork_state_running : ℕ
fork_state_running = 1

abbrev pub fork_state_complete : ℕ
fork_state_complete = 2

-- `r in (PIPELINE_DISABLE, PIPELINE_TERMINATE)`
abbrev pub is_ended : Code → Bool
is_ended r = r == se_pipeline_disable || r == se_pipeline_terminate

-- what follows the children: `if active == 0`
unfoldable pub finish_interface : ℕ → ℕ → Action Code
finish_interface i active =
    if active == 0
    then (do set_state i fork_state_complete; pure se_function_disable)
    else pure se_function_continue

-- the loop of a tick, `active` children counted so far
unfoldable pub interface_loop : ℕ → ℕ → List Handle → String → EventData → Action Code
interface_loop i active [] event_id event_data = finish_interface i active
interface_loop i active (h ∷ hs) event_id event_data =
    let rest = λ (n : ℕ). interface_loop i n hs event_id event_data in
    do
      c ← get_cell h.id
      if c.active
          then (do
            r ← invoke_any h event_id event_data
            if ltb r se_pipeline_continue
                then pure r
                else if is_ended r
                then (do terminate_child h; rest active)
                else if r == se_pipeline_reset
                then (do terminate_child h; reset_node_state h.id; rest (active + 1))
                else if r == se_pipeline_skip_continue
                then finish_interface i (active + 1)
                else rest (active + 1))
          else rest active

unfoldable pub se_function_interface : ℕ → List Handle → String → EventData → Action Code
se_function_interface i children event_id event_data =
    if str_eq event_id event_init
    then (do set_state i fork_state_running; children_reset_all children; pure se_function_continue)
    else if str_eq event_id event_terminate
    then (do
      children_terminate_all children
      set_state i fork_state_complete
      pure se_function_continue)
    else do
      c ← get_cell i
      if c.state == fork_state_running
          then interface_loop i 0 children event_id event_data
          else pure se_function_disable

-- a child that is no m_call fires if its flag is down; a predicate's flag is set by the fork
unfoldable pub fork_fire : Handle → String → EventData → Action (Unit {0})
fork_fire h event_id event_data = do
  c ← get_cell h.id
  if c.initialized then pure tt else do
    _ ← invoke_any h event_id event_data
    if is_p_call h.call_type
        then modify_cell h.id (λ d. record d { initialized = true })
        else pure tt

-- `if r == SE_FUNCTION_HALT: r = SE_PIPELINE_HALT`
abbrev pub halt_to_pipeline : Code → Code
halt_to_pipeline r = if r == se_function_halt then se_pipeline_halt else r

-- `_fork_tick_children`: the code to return at once, if there is one. A SKIP_CONTINUE ends the
-- loop, and the callers do not use the skip flag.
unfoldable pub fork_tick_children : List Handle → String → EventData → Action (Option Code)
fork_tick_children [] event_id event_data = pure none
fork_tick_children (h ∷ hs) event_id event_data =
    let rest = fork_tick_children hs event_id event_data in
    if is_m_call h.call_type
    then (do
      c ← get_cell h.id
      if c.active
          then (do
            r' ← invoke_any h event_id event_data
            let r = halt_to_pipeline r'
            if ltb r se_pipeline_continue
                then pure (some r)
                else if is_ended r
                then (do terminate_child h; rest)
                else if r == se_pipeline_reset
                then (do terminate_child h; h.reset_recursive; rest)
                else if r == se_pipeline_skip_continue
                then pure none
                else rest)
          else rest)
    else do fork_fire h event_id event_data; rest

unfoldable pub count_active_main : List Handle → Action ℕ
count_active_main [] = pure 0
count_active_main (h ∷ hs) = do
  c ← get_cell h.id
  n ← count_active_main hs
  pure (if is_m_call h.call_type && c.active then n + 1 else n)

-- `if early is not None: return early`
abbrev pub or_early : Option Code → Action Code → Action Code
or_early none m = m
or_early (some r) m = pure r

unfoldable pub se_fork : ℕ → List Handle → String → EventData → Action Code
se_fork i children event_id event_data =
    if str_eq event_id event_terminate
    then (do
      children_terminate_all children
      set_state i fork_state_complete
      pure se_pipeline_continue)
    else if str_eq event_id event_init
    then (do set_state i fork_state_running; children_reset_all children; pure se_pipeline_continue)
    else do
      c ← get_cell i
      if c.state == fork_state_running
          then (do
            early ← fork_tick_children children event_id event_data
            or_early early do
              n ← count_active_main children
              if n == 0
                  then (do set_state i fork_state_complete; pure se_pipeline_disable)
                  else pure se_pipeline_continue)
          else pure se_pipeline_disable

unfoldable pub se_fork_join : List Handle → String → EventData → Action Code
se_fork_join children event_id event_data =
    if str_eq event_id event_terminate
    then (do children_terminate_all children; pure se_pipeline_continue)
    else if str_eq event_id event_init
    then pure se_pipeline_continue
    else do
      early ← fork_tick_children children event_id event_data
      or_early early do
        n ← count_active_main children
        pure (if n == 0 then se_pipeline_disable else se_function_halt)
