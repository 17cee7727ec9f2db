-- ===== src/SEngine/Samples/Flow.antt =====
-- Runs of a sequence and of a fork_join.
use robot_person.Base.{◌≡◌, ◌≤◌, ◌↔◌, ◌⊎◌, refl, false, some, List, All, length, arith}
use robot_person.SEngine.Codes.{
  event_tick, se_pipeline_continue, se_pipeline_halt, se_pipeline_disable, se_function_halt,
}
use robot_person.SEngine.State.{State, ok, no_event_data}
use robot_person.SEngine.Handle.{Handle, m_call, o_call}
use robot_person.SEngine.Lifecycle.{children_terminate_all}
use robot_person.SEngine.Lifecycle.Reset.{IsReset, children_terminate_all-IsReset}
use robot_person.SEngine.Flow.Sequence.{se_sequence}
use robot_person.SEngine.Flow.Sequence.Cursor.{se_sequence-cursor}
use robot_person.SEngine.Flow.Fork.{se_fork_join, fork_tick_children, count_active_main}
use robot_person.SEngine.Flow.Fork.Joined.{IsEarly, NoActiveMain, se_fork_join-joined}
use robot_person.SEngine.Leaves.Verify.{se_verify_and_check_elapsed_time}
use robot_person.SEngine.Fn.{Fn, node, leaf, more}
use robot_person.SEngine.Tree.{handles}
use robot_person.SEngine.Keeps.Whole.{handles-IsKept}
use robot_person.SEngine.Samples.{sample_env, start, program, at_time}

-- two leaves under a sequence: the first is done at once
abbrev two_leaves : List Handle
two_leaves = handles sample_env 1 (
    more (node m_call (Fn.return_code se_pipeline_disable) leaf)
      (more (node m_call (Fn.return_code se_pipeline_halt) leaf) leaf))

abbrev after_leaves : State
after_leaves = (se_sequence 0 two_leaves event_tick no_event_data start).1

se_sequence-two_leaves :
    se_sequence 0 two_leaves event_tick no_event_data start
    ≡ (ok se_pipeline_continue, after_leaves)
unfolding program
se_sequence-two_leaves = refl

se_sequence-cursor_example :
    (0 ≤ (after_leaves.cells 0).state)
    × ((after_leaves.cells 0).state ≤ length two_leaves)
    × ((se_pipeline_continue ≡ se_pipeline_disable)
        ↔ ((after_leaves.cells 0).state ≡ length two_leaves))
unfolding program
se_sequence-cursor_example =
    se_sequence-cursor 0 3 (some 2) two_leaves event_tick no_event_data start after_leaves
      se_pipeline_continue refl refl
      (handles-IsKept 1 3 sample_env
        (more (node m_call (Fn.return_code se_pipeline_disable) leaf)
          (more (node m_call (Fn.return_code se_pipeline_halt) leaf) leaf))
        1 (omega arith) (omega arith))
      (omega arith) se_sequence-two_leaves

abbrev after_terminate : State
after_terminate = (children_terminate_all two_leaves after_leaves).1

children_terminate_all-two_leaves :
    children_terminate_all two_leaves after_leaves ≡ (ok tt, after_terminate)
unfolding program
children_terminate_all-two_leaves = refl

children_terminate_all-IsReset_example : All (λ h. IsReset (after_terminate.cells h.id)) two_leaves
children_terminate_all-IsReset_example =
    children_terminate_all-IsReset two_leaves after_leaves after_terminate
      children_terminate_all-two_leaves

-- an action that is done at once, under a watchdog of five nanoseconds
abbrev watched : List Handle
watched = handles sample_env 1 (
    more (node m_call (Fn.return_code se_pipeline_disable) leaf) (
      more
        (node m_call (Fn.verify_elapsed_time 5 false)
          (more (node o_call (Fn.log "late") leaf) leaf))
        leaf))

abbrev after_watched : State
after_watched = (se_fork_join watched event_tick (at_time 100) start).1

-- the action is done, and the watchdog keeps the node going
se_fork_join-watched :
    se_fork_join watched event_tick (at_time 100) start ≡ (ok se_function_halt, after_watched)
unfolding program se_fork_join fork_tick_children count_active_main se_verify_and_check_elapsed_time
se_fork_join-watched = refl

se_fork_join-joined_example :
    IsEarly se_function_halt
    ⊎ ((se_function_halt ≡ se_pipeline_disable) × NoActiveMain watched after_watched)
    ⊎ ((se_function_halt ≡ se_function_halt) × (NoActiveMain watched after_watched → ⊥))
se_fork_join-joined_example =
    se_fork_join-joined watched event_tick (at_time 100) start after_watched se_function_halt refl
      refl se_fork_join-watched
