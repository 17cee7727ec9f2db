-- ===== src/SEngine/Samples.antt =====
-- Runs of small trees, and the theorems at concrete inputs.
pub mod Builders
pub mod Leaves
pub mod Queues
pub mod Flow
pub mod Calls
pub mod Machines
pub mod Wires
use Prim.Native.Nat.{◌^◌}
use robot_person.Base.{
  ℕ, ℤ, pos, scale_ℤ, zero, suc, ◌*◌, ◌%◌, ◌≡◌, ◌≢◌, ◌≤◌, ◌<◌, ◌↔◌, ◌⊎◌, refl, String, Bool, true,
  false, not, none, some, List, [], ◌∷◌, ◌++◌, All, length, get_elem?, lookup, insert, leb,
  if◌then◌else◌, arith,
}
use robot_person.SEngine.Codes.{
  event_init, event_tick, se_pipeline_continue, se_pipeline_halt, se_pipeline_disable,
  se_pipeline_terminate, se_function_halt, is_application, is_function, is_pipeline, variant,
  to_pipeline, to_function, to_application, is_complete,
}
use robot_person.SEngine.Values.{Seconds}
use robot_person.SEngine.State.{
  State, Event, EventData, Env, ok, pure, raise, gets, modify, get_cell, modify_cell, read_time,
  fresh_state, no_event_data, logged, ◌>>=◌,
}
use robot_person.SEngine.Queue.{Priority, high, normal, queue_size, push_event, pop_event}
use robot_person.SEngine.Queue.Order.{pop_all, push_all, pushed, pop_all-push_all}
use robot_person.SEngine.Handle.{
  Handle, m_call, o_call, io_call, p_call, is_m_call, is_p_call, is_io_call,
}
use robot_person.SEngine.Dispatch.{
  set_current, ensure_init, finish_disabled, invoke_main, invoke_oneshot, invoke_any,
}
use robot_person.SEngine.Dispatch.Lifecycle.{
  IsDisabled, invoke_main-IsDisabled, LeavesCells, invoke_oneshot_idem, invoke_oneshot-reset,
}
use robot_person.SEngine.Lifecycle.{
  reset_node_state, deactivate_node_state, terminate_child, terminate_reversed, children_reset_all,
  children_terminate_all,
}
use robot_person.SEngine.Lifecycle.Reset.{IsReset, children_terminate_all-IsReset}
use robot_person.SEngine.Flow.Sequence.{
  set_state, terminate_initialized, paused_code, sequence_loop, se_sequence,
}
use robot_person.SEngine.Flow.Sequence.Cursor.{se_sequence-cursor}
use robot_person.SEngine.Flow.Fork.{se_fork_join, fork_tick_children, count_active_main}
use robot_person.SEngine.Flow.Fork.Joined.{IsEarly, NoActiveMain, se_fork_join-joined}
use robot_person.SEngine.Leaves.Verify.{se_verify_and_check_elapsed_time}
use robot_person.SEngine.Leaves.Pred
use robot_person.SEngine.Leaves.Pred.Logic.{Answer, all_true, any_true, odd_true, composite_logic}
use robot_person.SEngine.Leaves.Oneshot
use robot_person.SEngine.Leaves.Delays.{se_time_delay, se_wait_timeout, return_code, now_ns, se_nop}
use robot_person.SEngine.Leaves.TimeWindow.{span_contains}
use robot_person.SEngine.Leaves.TimeWindow.Spans.{steps_from, span_contains-steps_from}
use robot_person.SEngine.Codes.Families.{families, translate_variant, InFamily}
use robot_person.SEngine.Flow.Branch.{set_user_data}
use robot_person.SEngine.Fn.{Fn, Node, node, leaf, more}
use robot_person.SEngine.Tree.{call_main, call_two, size, size_all, handle, handles}
use robot_person.SEngine.Tick.{tick_once, pop, drain_event, drain, run_until_idle}
use robot_person.SEngine.Tick.Drain.{Ended, QueuesNothing, run_until_idle-Ended}
use robot_person.SEngine.Dsl
use robot_person.SEngine.Dsl.Macros.{
  check_row, set_transition, transition_map, state_machine_from_table, retry_with_backoff,
}
use robot_person.SEngine.Dsl.Cases.{
  child_at, event_dispatch-route, HasActions, last_row, retry_with_backoff-children,
  state_machine_from_table-transitions,
}
use robot_person.SEngine.Routing.{next_state?}
use robot_person.SEngine.Keeps.Whole.{handles-IsKept}

-- clocks that move by one with each reading, and at most two queued events
-- the nanoseconds of a whole number of seconds, and none of any other
abbrev whole_seconds : Seconds → ℤ
whole_seconds seconds = elim seconds.exponent [
  | zero ↦ scale_ℤ seconds.numerator 1000000000
  | suc e ↦ pos 0
]

abbrev sample_env : Env
sample_env = record {
  event_queue_limit = some 2;
  get_time = λ n. n;
  local_time = λ n. record { hour = n % 24; minute = 0; second = 0; weekday = 0; day = 1 };
  to_ns = whole_seconds;
}

abbrev start : State
start = fresh_state []

program : Unit {0}
unfolding if◌then◌else◌ is_application is_function is_pipeline pure raise gets modify get_cell
    modify_cell read_time ◌>>=◌ queue_size push_event pop_event is_m_call is_p_call is_io_call
    set_current ensure_init finish_disabled invoke_main invoke_oneshot invoke_any reset_node_state
    deactivate_node_state terminate_child terminate_reversed children_reset_all
    children_terminate_all set_state terminate_initialized paused_code sequence_loop se_sequence
    Oneshot.write_log Oneshot.log Oneshot.queue_event Oneshot.dict_set return_code now_ns
    se_time_delay se_wait_timeout se_nop set_user_data call_main call_two size size_all handle
    handles tick_once pop drain_event drain run_until_idle Pred.set_key insert lookup
program = tt

-- `sequence(log("hi"), wait("go"), …)` with a queued event in front
abbrev greeting : Node
greeting = node m_call Fn.sequence (
    more (node o_call (Fn.log "hi") leaf) (
      more (node o_call (Fn.queue_event "go" high no_event_data) leaf)
        (more (node m_call (Fn.return_code se_pipeline_halt) leaf) leaf)))

abbrev greeted : State
greeted = (tick_once (handle sample_env 0 greeting) event_tick no_event_data start).1

tick_once-greeting :
    ((tick_once (handle sample_env 0 greeting) event_tick no_event_data start).0
      ≡ ok se_pipeline_continue)
    × (greeted.log ≡ logged "hi" ∷ [])
    × (queue_size greeted ≡ 1)
    × ((greeted.cells 0).state ≡ 2)
unfolding program
tick_once-greeting = (refl, refl, refl, refl)

abbrev done_leaf : Handle
done_leaf = handle sample_env 0 (node m_call (Fn.return_code se_pipeline_disable) leaf)

abbrev after_done : State
after_done = (invoke_main done_leaf event_tick no_event_data start).1

invoke_main-done :
    invoke_main done_leaf event_tick no_event_data start ≡ (ok se_pipeline_disable, after_done)
unfolding program
invoke_main-done = refl

invoke_main-IsDisabled_example :
    IsDisabled (after_done.cells 0)
    × (terminate_child done_leaf after_done ≡ deactivate_node_state 0 after_done)
unfolding program
invoke_main-IsDisabled_example =
    invoke_main-IsDisabled done_leaf event_tick no_event_data start after_done refl invoke_main-done

abbrev at_time : ℕ → EventData
at_time t = record { timestamp = some t; fields = [] }

abbrev load_once : Handle
load_once = handle sample_env 0 (node io_call (Fn.log "once") leaf)

load_once-LeavesCells : LeavesCells load_once
unfolding program
load_once-LeavesCells s = refl

abbrev after_load : State
after_load = (invoke_oneshot load_once start).1

invoke_oneshot-load : invoke_oneshot load_once start ≡ (ok tt, after_load)
unfolding program
invoke_oneshot-load = refl

invoke_oneshot_idem_example : invoke_oneshot load_once after_load ≡ (ok tt, after_load)
invoke_oneshot_idem_example =
    invoke_oneshot_idem load_once start after_load load_once-LeavesCells invoke_oneshot-load

invoke_oneshot-reset_example :
    invoke_oneshot load_once (reset_node_state 0 after_load).1
    ≡ (ok tt, (reset_node_state 0 after_load).1)
unfolding handle
invoke_oneshot-reset_example =
    invoke_oneshot-reset load_once start after_load refl load_once-LeavesCells invoke_oneshot-load
