-- ===== src/ChainTree/Samples/Builtins.antt =====
-- The builtins at concrete inputs.
use robot_person.Base.{◌==◌, ◌≡◌, refl, true, not, none, some, [], ◌∷◌, leb, length, arith}
use robot_person.ChainTree.Codes.{cfl_reset}
use robot_person.ChainTree.Values.{Event}
use robot_person.ChainTree.State.{World, ok, no_data, fresh_control, get_data, modify_data}
use robot_person.ChainTree.Invariants.{IsStable, control-IsStable}
use robot_person.ChainTree.Builtins.{clear_all}
use robot_person.ChainTree.Builtins.Waits.{cfl_wait_main}
use robot_person.ChainTree.Builtins.Waits.Timeouts.{wait_all, halts, wait_all-times_out}
use robot_person.ChainTree.Builtins.Sequence.{common_main, cfl_mark_sequence, cfl_sequence_init}
use robot_person.ChainTree.Builtins.Sequence.Bounds.{IndexBelow, InRange, sequence-InRange}
use robot_person.ChainTree.Builtins.Machine.{
  set_state, enable_at, start_machine, cfl_state_machine_init,
}
use robot_person.ChainTree.Builtins.Machine.Start.{IsIn, cfl_state_machine_init-IsIn}
use robot_person.ChainTree.Builtins.Supervisor.{
  cfl_supervisor_main, new_supervisor_state, is_threshold_exceeded,
}
use robot_person.ChainTree.Builtins.Supervisor.Window.{recent, is_threshold_exceeded-recent}
use robot_person.ChainTree.Samples.{sample, up, kb, tick, program}

sample-InRange : IsStable sample (InRange sample 0)
unfolding program
sample-InRange =
    control-IsStable (λ c. IndexBelow 2 c.sequence_state) 0 sample (λ e c h. h)
      (λ fn k j t e d. record { at = λ s h. (h, tt) }) (λ fn k j. record { at = λ s h. (h, tt) })

sequence-InRange_example :
    (InRange sample 0 up → InRange sample 0 (common_main sample true kb none 0 tick up).1)
    × (InRange sample 0 up → InRange sample 0 (cfl_mark_sequence kb 3 up).1)
    × ((cfl_sequence_init sample kb 0 up).0 ≡ ok tt
        → InRange sample 0 (cfl_sequence_init sample kb 0 up).1)
sequence-InRange_example = sequence-InRange sample 0 true kb none tick 3 up sample-InRange

-- a wait with a timeout of three timer events
abbrev waiting : World
waiting = record up { node_data = λ _. record no_data { timeout = 3; reset_flag = true } }

abbrev other : Event
other = record tick { event_id = "go" }

wait_all-times_out_example :
    ((wait_all sample kb 3 (tick ∷ other ∷ tick ∷ []) waiting).0 ≡ halts (tick ∷ other ∷ tick ∷ []))
    × ((cfl_wait_main sample kb none 3 tick
          (wait_all sample kb 3 (tick ∷ other ∷ tick ∷ []) waiting).1).0
        ≡ ok cfl_reset)
unfolding program
wait_all-times_out_example =
    wait_all-times_out sample kb 3 (tick ∷ other ∷ tick ∷ []) tick waiting refl refl refl

abbrev machine : World
machine = record up {
  node_data = λ _. record no_data { state_names = "idle" ∷ "busy" ∷ []; initial_state = "busy" };
}

abbrev started : World
started = (cfl_state_machine_init sample kb 0 machine).1

cfl_state_machine_init-machine : cfl_state_machine_init sample kb 0 machine ≡ (ok tt, started)
unfolding program cfl_state_machine_init get_data start_machine clear_all enable_at set_state
    modify_data
cfl_state_machine_init-machine = refl

cfl_state_machine_init-IsIn_example : IsIn sample 0 (some 1) "busy" started
unfolding program
cfl_state_machine_init-IsIn_example =
    cfl_state_machine_init-IsIn sample kb 0 machine started cfl_state_machine_init-machine

is_threshold_exceeded-recent_example :
    (is_threshold_exceeded sample 0
      (record { reset_count = 2; window = 5; failures = 1 ∷ 2 ∷ [] })
      1
      up).0
    ≡ ok (leb 1 (length (recent 5 0 (1 ∷ 2 ∷ []))))
is_threshold_exceeded-recent_example =
    is_threshold_exceeded-recent sample 0
      (record { reset_count = 2; window = 5; failures = 1 ∷ 2 ∷ [] }) 1 up
      ((omega arith, tt), (tt, tt))

-- node 2 has failed, and the policy restarts all children
abbrev failing : World
failing = record up {
  control = λ i. record fresh_control {
    enabled = not (i == 2);
    initialized = not (i == 2);
    supervisor_state = some (new_supervisor_state sample 5);
  };
  node_data = λ _. record no_data { termination_type = "ONE_FOR_ALL" };
}

abbrev restarted : World
restarted = (cfl_supervisor_main sample kb none 0 tick failing).1
