-- ===== src/ChainTree/Samples/Loops.antt =====
-- A tick of the clock, and a drain of the queue.
use robot_person.Base.{ℕ, ◌≡◌, ◌≤◌, refl, true, none, some, [], ◌∷◌, Option, arith}
use robot_person.ChainTree.Values.{Datum, null, boolean, number, text, node_ref, dict, Event}
use robot_person.ChainTree.State.{World, Kb, ok}
use robot_person.ChainTree.Node.{Program}
use robot_person.ChainTree.EventQueue.{pop}
use robot_person.ChainTree.Engine.{execute_node, initialize, run_main, fire_one_shot}
use robot_person.ChainTree.Engine.Kbs.{kb_of}
use robot_person.ChainTree.Engine.MainLoop.{
  generate_timer_events, execute_in, execute_at, execute_event, drain_event, drain,
}
use robot_person.ChainTree.Engine.MainLoop.Clock.{all_events, queued, generate_timer_events-queued}
use robot_person.ChainTree.Engine.MainLoop.Drain.{num_queued, QueuesNothing, Ended, drain-Ended}
use robot_person.ChainTree.Samples.{sample, no_mains, tick, activated, program}

-- one second after a tick at 0.5 seconds
abbrev running : World
running = record activated { time_reads = 1; last_clock_time = some 500000000 }

generate_timer_events-queued_example : generate_timer_events sample running ≡ (
  ok tt,
  queued
      (record running { time_reads = 2; last_clock_time = some 1000000000 })
      (all_events
        (λ i. (running.control i).enabled)
        (some 500000000)
        1000000000
        running.active_kbs),
)
generate_timer_events-queued_example = generate_timer_events-queued sample running

-- a program of single nodes without functions
abbrev bare : Program
bare = record sample {
  nodes = λ i. record {
    parent = none;
    children = [];
    main_fn_name = none;
    boolean_fn_name = none;
    init_fn_name = none;
    term_fn_name = none;
  };
}

-- a node without functions queues nothing, whatever its flags
bare_node-le :
    (k : Kb) (e : Event) (i : ℕ) (s : World)
    → num_queued (execute_in bare no_mains (some k) i e s).1 ≤ num_queued s
unfolding program execute_in execute_node initialize run_main fire_one_shot
bare_node-le k e i s = ground arith

bare_kb-le :
    (o : Option Kb) (e : Event) (i : ℕ) (s : World)
    → num_queued (execute_in bare no_mains o i e s).1 ≤ num_queued s
unfolding program execute_in
bare_kb-le none e i s = omega arith
bare_kb-le (some k) e i s = bare_node-le k e i s

bare_target-le :
    (target : Datum) (e : Event) (s : World)
    → num_queued (execute_at bare no_mains target e s).1 ≤ num_queued s
unfolding program execute_at
bare_target-le null e s = omega arith
bare_target-le (boolean b) e s = omega arith
bare_target-le (number n) e s = omega arith
bare_target-le (text t) e s = omega arith
bare_target-le (node_ref i) e s = bare_kb-le (kb_of bare i s) e i s
bare_target-le (dict fields) e s = omega arith

bare-QueuesNothing : QueuesNothing bare no_mains
unfolding execute_event
bare-QueuesNothing e s = bare_target-le e.target e s

-- two events for the root of the active KB
abbrev ticking : World
ticking = record activated { normal = tick ∷ tick ∷ [] }

drain-Ended_example :
    Ended bare no_mains (drain bare no_mains 3 ticking).0 (drain bare no_mains 3 ticking).1
unfolding program
drain-Ended_example = drain-Ended bare no_mains 3 ticking bare-QueuesNothing (omega arith)

drain-ticking : (drain bare no_mains 3 ticking).0 ≡ ok true
unfolding program drain drain_event pop execute_event execute_at execute_in execute_node initialize
    run_main fire_one_shot kb_of
drain-ticking = refl
