-- ===== src/ChainTree/Samples/States.antt =====
-- A state machine at concrete inputs: node 0 with the states "idle", node 1, and "busy", node 2.
use robot_person.Base.{ℕ, zero, suc, ◌+◌, ◌*◌, ◌≤◌, ◌≡◌, refl, some, [], ◌∷◌, arith}
use robot_person.ChainTree.State.{World, ok, no_data, get_data, modify_data}
use robot_person.ChainTree.Walker.Recursive.{Forest, no_trees, branch, Linked, num_nodes}
use robot_person.ChainTree.Builtins.{clear_all}
use robot_person.ChainTree.Builtins.Column.{cfl_column_term}
use robot_person.ChainTree.Builtins.Machine.{
  set_state, enable_at, terminate_at, enter_state, do_change_state, start_machine,
  cfl_state_machine_init, cfl_state_machine_term,
}
use robot_person.ChainTree.Builtins.Machine.Start.{IsIn, cfl_state_machine_init-IsIn}
use robot_person.ChainTree.Builtins.Machine.Change.{HasTrees, do_change_state-IsIn}
use robot_person.ChainTree.Samples.{kb, below, program}
use robot_person.ChainTree.Samples.Full.{full, full_up, full-IsQuiet}

abbrev below_node : ℕ → Forest
below_node zero = below
below_node (suc zero) = branch 3 no_trees no_trees
below_node (suc (suc c)) = no_trees

below_node-Linked : (c : ℕ) → Linked full (branch c (below_node c) no_trees)
below_node-Linked zero = (refl, (refl, (refl, tt, tt), (refl, tt, tt)), tt)
below_node-Linked (suc zero) = (refl, (refl, tt, tt), tt)
below_node-Linked (suc (suc zero)) = (refl, tt, tt)
below_node-Linked (suc (suc (suc zero))) = (refl, tt, tt)
below_node-Linked (suc (suc (suc (suc c)))) = (refl, tt, tt)

full-HasTrees : HasTrees full
full-HasTrees = record { below = below_node; links = below_node-Linked; room = room_below }
  where
    room_below : (c : ℕ) → 2 * num_nodes (below_node c) + 2 ≤ 10
    room_below zero = omega arith
    room_below (suc zero) = omega arith
    room_below (suc (suc c)) = omega arith

states : Unit {0}
unfolding program cfl_state_machine_init get_data start_machine clear_all enable_at set_state
    modify_data do_change_state enter_state terminate_at cfl_column_term cfl_state_machine_term
states = tt

abbrev idle_machine : World
idle_machine = record full_up {
  node_data = λ _. record no_data { state_names = "idle" ∷ "busy" ∷ []; initial_state = "idle" };
}

abbrev in_idle : World
in_idle = (cfl_state_machine_init full kb 0 idle_machine).1

cfl_state_machine_init-idle_machine :
    cfl_state_machine_init full kb 0 idle_machine ≡ (ok tt, in_idle)
unfolding states
cfl_state_machine_init-idle_machine = refl

in_idle-IsIn : IsIn full 0 (some 0) "idle" in_idle
unfolding states
in_idle-IsIn =
    cfl_state_machine_init-IsIn full kb 0 idle_machine in_idle cfl_state_machine_init-idle_machine

abbrev in_busy : World
in_busy = (do_change_state full kb 0 "busy" in_idle).1

do_change_state-in_idle : do_change_state full kb 0 "busy" in_idle ≡ (ok tt, in_busy)
unfolding states
do_change_state-in_idle = refl

do_change_state-IsIn_example : IsIn full 0 (some 1) "busy" in_busy
unfolding states
do_change_state-IsIn_example =
    do_change_state-IsIn full kb 0 "idle" "busy" in_idle in_busy full-IsQuiet full-HasTrees
      in_idle-IsIn do_change_state-in_idle
