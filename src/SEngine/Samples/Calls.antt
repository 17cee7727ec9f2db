-- ===== src/SEngine/Samples/Calls.antt =====
-- A called tree that suspends by SE_PIPELINE_HALT.
use robot_person.Base.{pos, ◌+ℤ◌, ◌≡◌, refl, true, false, none, some}
use robot_person.SEngine.Codes.{event_tick, se_pipeline_halt, is_function}
use robot_person.SEngine.State.{ok, fresh_cell}
use robot_person.SEngine.Queue.{queue_empty}
use robot_person.SEngine.Handle.{m_call}
use robot_person.SEngine.Fn.{Fn, node, leaf}
use robot_person.SEngine.Tree.{handle}
use robot_person.SEngine.NestedCall.{
  Target, CallParams, Trees, CallState, instance_of, fresh_child, resolve_tree, drops,
  result_is_complete, drain_child, tick_and_drain, translate, after_run, run_child, run_or_fresh,
  se_call_tree,
}
use robot_person.SEngine.NestedCall.Suspended.{Left, se_call_tree-fresh}
use robot_person.SEngine.Samples.{program, sample_env, start, at_time}

abbrev delayed : Target
delayed = record {
  root =
      handle sample_env 0
        (node m_call (Fn.time_delay (record { numerator = pos 5; exponent = 0 })) leaf);
  cells = λ _. fresh_cell;
}

abbrev call_params : CallParams
call_params = record { tree = some delayed; tree_name = none }

abbrev no_trees : Trees
no_trees name = none

abbrev called : CallState
called = record { user_data = some (some (instance_of delayed)); state = start }

abbrev halted : CallState
halted = (se_call_tree 3 no_trees call_params event_tick (at_time 100) called).1

fresh_child-delayed : fresh_child no_trees call_params ≡ ok (instance_of delayed)
unfolding fresh_child resolve_tree
fresh_child-delayed = refl

se_call_tree-delayed :
    se_call_tree 3 no_trees call_params event_tick (at_time 100) called
    ≡ (ok (some se_pipeline_halt), halted)
unfolding program se_call_tree run_or_fresh run_child after_run tick_and_drain drain_child
    queue_empty result_is_complete translate instance_of ◌+ℤ◌
se_call_tree-delayed = refl

se_call_tree-fresh_example :
    (is_function se_pipeline_halt ≡ false)
    × Left se_pipeline_halt halted
    × (drops se_pipeline_halt ≡ true
        → se_call_tree 3 no_trees call_params event_tick (at_time 200) halted
          ≡ se_call_tree 3 no_trees call_params event_tick
              (at_time 200)
              (record halted { user_data = some (some (instance_of delayed)) }))
se_call_tree-fresh_example =
    se_call_tree-fresh 3 no_trees call_params event_tick event_tick (at_time 100) (at_time 200)
      called halted se_pipeline_halt (instance_of delayed) refl refl refl refl fresh_child-delayed
      se_call_tree-delayed
