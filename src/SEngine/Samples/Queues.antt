-- ===== src/SEngine/Samples/Queues.antt =====
-- Events that are pushed, and a run until the queues are empty.
use robot_person.Base.{◌≡◌, refl, String, true, none, List, [], ◌∷◌, ◌++◌, arith}
use robot_person.SEngine.Codes.{se_pipeline_halt}
use robot_person.SEngine.State.{State, Event, Env, pure, no_event_data}
use robot_person.SEngine.Queue.{Priority, high, normal}
use robot_person.SEngine.Queue.Order.{pop_all, push_all, pushed, pop_all-push_all}
use robot_person.SEngine.Handle.{Handle, m_call}
use robot_person.SEngine.Lifecycle.{reset_node_state}
use robot_person.SEngine.Tick.{run_until_idle}
use robot_person.SEngine.Tick.Drain.{Ended, QueuesNothing, run_until_idle-Ended}
use robot_person.SEngine.Samples.{sample_env, start, program}

abbrev free_env : Env
free_env = record sample_env { event_queue_limit = none }

abbrev event : String → Event
event e = record { event_id = e; event_data = no_event_data }

abbrev three_events : List (Priority × Event)
three_events = (normal, event "a") ∷ (high, event "b") ∷ (normal, event "c") ∷ []

pop_all-push_all_example :
    pop_all 3 (push_all free_env three_events start)
    ≡ ([] ++ pushed high three_events) ++ ([] ++ pushed normal three_events)
unfolding program push_all
pop_all-push_all_example = pop_all-push_all free_env three_events start 3 refl (omega arith)

-- a root that pauses on every event
abbrev pausing : Handle
pausing = record {
  id = 0;
  call_type = m_call;
  main = λ e d. pure se_pipeline_halt;
  call = pure true;
  reset_recursive = reset_node_state 0;
}

pausing-QueuesNothing : QueuesNothing pausing
unfolding program
pausing-QueuesNothing e d s = ground arith

abbrev queued_three : State
queued_three = push_all free_env three_events start

run_until_idle-Ended_example :
    Ended (run_until_idle 4 pausing queued_three).0 (run_until_idle 4 pausing queued_three).1
unfolding program push_all
run_until_idle-Ended_example =
    run_until_idle-Ended pausing 4 queued_three pausing-QueuesNothing (omega arith)
