-- ===== src/SEngine/Dispatch.antt =====
-- s_engine/se_runtime/dispatch.py: how a node is invoked, by its call type. A function that
-- returns None stands for one that returns SE_PIPELINE_CONTINUE, which is what `invoke_main` makes of it.
pub mod Lifecycle
use robot_person.Base.{String, Bool, true, false, some, ◌==◌, if◌then◌else◌}
use robot_person.SEngine.Codes.{
  Code, se_pipeline_continue, se_pipeline_halt, se_pipeline_disable, event_init, event_terminate,
}
use robot_person.SEngine.State.{
  State, Cell, EventData, Action, no_data, no_event_data, pure, modify, get_cell, modify_cell,
  ◌>>=◌, ◌>>◌,
}
use robot_person.SEngine.Handle.{CallType, m_call, o_call, io_call, p_call, Handle, is_io_call}

unfoldable pub set_current : String → EventData → Action (Unit {0})
set_current event_id event_data =
    modify
      (λ s. record s { current_event_id = some event_id; current_event_data = some event_data })

abbrev pub mark_init : Cell → Cell
mark_init c = record c { initialized = true; ever_init = true }

-- the fields cleared when a node has disabled itself
abbrev pub clear_disabled : Cell → Cell
clear_disabled c = record c { active = false; initialized = false; state = 0; user_data = no_data }

-- the lazy INIT
unfoldable pub ensure_init : Handle → EventData → Action (Unit {0})
ensure_init h event_data = do
  c ← get_cell h.id
  if c.initialized then pure tt else do
    modify_cell h.id mark_init
    set_current event_init event_data
    _ ← h.main event_init event_data
    pure tt

-- TERMINATE and the clearing of the node, after it returned SE_PIPELINE_DISABLE
unfoldable pub finish_disabled : Handle → Action (Unit {0})
finish_disabled h = do
  set_current event_terminate no_event_data
  _ ← h.main event_terminate no_event_data
  modify_cell h.id clear_disabled

unfoldable pub invoke_main : Handle → String → EventData → Action Code
invoke_main h event_id event_data = do
  c ← get_cell h.id
  if c.active
      then (do
        ensure_init h event_data
        set_current event_id event_data
        result ← h.main event_id event_data
        (if result == se_pipeline_disable then finish_disabled h else pure tt)
        pure result)
      else pure se_pipeline_continue

-- the flag that says that a oneshot has fired
abbrev pub fired : CallType → Cell → Bool
fired t c = if is_io_call t then c.ever_init else c.initialized

abbrev pub mark_fired : CallType → Cell → Cell
mark_fired t c = if is_io_call t then mark_init c else record c { initialized = true }

unfoldable pub invoke_oneshot : Handle → Action (Unit {0})
invoke_oneshot h = do
  c ← get_cell h.id
  if fired h.call_type c
      then pure tt
      else do modify_cell h.id (mark_fired h.call_type); _ ← h.call; pure tt

abbrev pub invoke_pred : Handle → Action Bool
invoke_pred h = h.call

-- `SE_PIPELINE_CONTINUE if … else SE_PIPELINE_HALT`
abbrev pub code_of_pred : Bool → Code
code_of_pred b = if b then se_pipeline_continue else se_pipeline_halt

abbrev pub invoke_as : CallType → Handle → String → EventData → Action Code
invoke_as m_call h event_id event_data = invoke_main h event_id event_data
invoke_as o_call h event_id event_data = do invoke_oneshot h; pure se_pipeline_continue
invoke_as io_call h event_id event_data = do invoke_oneshot h; pure se_pipeline_continue
invoke_as p_call h event_id event_data = do b ← invoke_pred h; pure (code_of_pred b)

unfoldable pub invoke_any : Handle → String → EventData → Action Code
invoke_any h event_id event_data = invoke_as h.call_type h event_id event_data
