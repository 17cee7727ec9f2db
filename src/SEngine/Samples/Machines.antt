-- ===== src/SEngine/Samples/Machines.antt =====
-- A door that is pushed.
use robot_person.Base.{◌≡◌, refl, some, List, [], ◌∷◌, arith}
use robot_person.SEngine.Codes.{event_init, se_pipeline_continue}
use robot_person.SEngine.State.{State, state_name, ok, no_event_data}
use robot_person.SEngine.Handle.{Handle, m_call}
use robot_person.SEngine.Lifecycle.{child_invoke, child_terminate, child_reset_recursive}
use robot_person.SEngine.Flow.Branch.{terminate_reset_recursive}
use robot_person.SEngine.Routing.{
  Machine, next_state?, take_transition, run_state, normalize_routed, se_state_machine,
}
use robot_person.SEngine.Routing.Follows.{goes_to, se_state_machine-goes_to}
use robot_person.SEngine.Fn.{Fn, Nodes, node, leaf, more}
use robot_person.SEngine.Tree.{handles, reset_tree, reset_forest}
use robot_person.SEngine.Keeps.Whole.{handles-IsKept}
use robot_person.SEngine.Samples.{program, sample_env, start}

abbrev machine : Machine
machine = record {
  states = ("open", 0) ∷ ("closed", 1) ∷ [];
  transitions = (("open", "push"), "closed") ∷ (("closed", "pull"), "open") ∷ [];
  initial = "open";
}

abbrev actions : Nodes
actions = more (node m_call Fn.nop leaf) (more (node m_call Fn.nop leaf) leaf)

abbrev action_handles : List Handle
action_handles = handles sample_env 1 actions

abbrev opened : State
opened = (se_state_machine machine 0 action_handles event_init no_event_data start).1

abbrev pushed_door : State
pushed_door = (se_state_machine machine 0 action_handles "push" no_event_data opened).1

opened-name : (opened.cells 0).user_data ≡ state_name "open"
unfolding program se_state_machine
opened-name = refl

se_state_machine-pushed :
    se_state_machine machine 0 action_handles "push" no_event_data opened
    ≡ (ok se_pipeline_continue, pushed_door)
unfolding program se_state_machine take_transition next_state? run_state normalize_routed
    child_invoke child_terminate child_reset_recursive terminate_reset_recursive reset_tree
    reset_forest
se_state_machine-pushed = refl

se_state_machine-goes_to_example :
    (pushed_door.cells 0).user_data ≡ state_name (goes_to machine "open" "push")
unfolding program
se_state_machine-goes_to_example =
    se_state_machine-goes_to 0 3 (some 2) machine action_handles "push" no_event_data opened
      pushed_door se_pipeline_continue "open" refl refl
      (handles-IsKept 1 3 sample_env actions 1 (omega arith) (omega arith)) opened-name
      se_state_machine-pushed
