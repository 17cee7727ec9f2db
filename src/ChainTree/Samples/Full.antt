-- ===== src/ChainTree/Samples/Full.antt =====
-- A program with builtins in its registry, those that enable children among them: node 0 is a state
-- machine and a catch node, node 1 a column, and nodes 2 and 3 are leaves that log when they end.
use robot_person.Base.{
  ℕ, zero, suc, ◌≡◌, ◌∙◌, ◌==◌, ap, refl, String, true, false, not, none, some, List, [], ◌∷◌, ◌++◌,
  All, arith,
}
use robot_person.ChainTree.Registry.{Registry, Side, new_registry, lookup_one_shot}
use robot_person.ChainTree.State.{
  World, Kb, ExceptionState, stage_recovery, ok, Action, modify, no_data, new_engine, fresh_control,
}
use robot_person.ChainTree.Node.{Node, Program, is_enabled}
use robot_person.ChainTree.Walker.Recursive.{no_trees, branch, Linked}
use robot_person.ChainTree.Engine.{terminate_node_tree, fire_one_shot}
use robot_person.ChainTree.Engine.Teardown.{teardown_order}
use robot_person.ChainTree.Engine.Teardown.Quiet.{IsOff, IsQuiet, terminate_node_tree-disables}
use robot_person.ChainTree.Invariants.{Keeps, Runs-pure}
use robot_person.ChainTree.Invariants.Teardown.{
  Keeps-fire_boolean, Keeps-fire_one_shot_found, Keeps-fire_found,
}
use robot_person.ChainTree.Builtins.{fire}
use robot_person.ChainTree.Builtins.Column.{cfl_column_init, cfl_column_term}
use robot_person.ChainTree.Builtins.Machine.{cfl_state_machine_init, cfl_state_machine_term}
use robot_person.ChainTree.Builtins.Exception.{cfl_exception_catch_init, cfl_exception_catch_main}
use robot_person.ChainTree.Builtins.Exception.Stages.{
  HasStage, IsUndisturbed, cfl_exception_catch_main-HasStage,
}
use robot_person.ChainTree.Samples.{sample, below, kb, tick, program}

abbrev named_node : String → String → List ℕ → Node
named_node init term children = record {
  parent = none;
  children = children;
  main_fn_name = none;
  boolean_fn_name = some "watch";
  init_fn_name = some init;
  term_fn_name = some term;
}

abbrev full_nodes : ℕ → Node
full_nodes zero = named_node "CFL_STATE_MACHINE_INIT" "CFL_STATE_MACHINE_TERM" (1 ∷ 2 ∷ [])
full_nodes (suc zero) = named_node "CFL_COLUMN_INIT" "CFL_COLUMN_TERM" (3 ∷ [])
full_nodes (suc (suc i)) = named_node "CFL_NULL" "bye" []

-- the one-shots, by the identity of the callable
abbrev links : Program
links = record sample { nodes = full_nodes }

abbrev one_shots : ℕ → Kb → ℕ → Action (Unit {0})
one_shots zero k i = cfl_column_init links k i
one_shots (suc zero) k i = cfl_column_term k i
one_shots (suc (suc zero)) k i = cfl_state_machine_init links k i
one_shots (suc (suc (suc zero))) k i = cfl_state_machine_term k i
one_shots (suc (suc (suc (suc zero)))) k i = cfl_exception_catch_init links k i
one_shots (suc (suc (suc (suc (suc fn))))) k i =
    modify (λ s. record s { log = s.log ++ "bye" ∷ [] })

abbrev pub full : Program
full = record links { one_shot_fn = one_shots }

abbrev full_side : Side
full_side = record {
  tables =
      ("boolean", ("watch", 7) ∷ [])
      ∷ (
        "one_shot",
        ("CFL_COLUMN_INIT", 0)
            ∷ ("CFL_COLUMN_TERM", 1)
            ∷ ("CFL_STATE_MACHINE_INIT", 2)
            ∷ ("CFL_STATE_MACHINE_TERM", 3)
            ∷ ("CFL_EXCEPTION_CATCH_INIT", 4)
            ∷ ("bye", 8)
            ∷ [],
      )
      ∷ [];
  descriptions = [];
}

abbrev full_registry : Registry
full_registry = record new_registry { cfl = full_side }

abbrev pub full_up : World
full_up = record (new_engine (λ _. no_data) full_registry) {
  control = λ _. record fresh_control { enabled = true; initialized = true };
}

-- what the termination functions of the nodes do keeps a property of the registry and the flags
module _ (P : World → Type 0) (same : (s : World) → P s → s.registry ≡ full_registry)
    (logs : (k : Kb) (i : ℕ) → Keeps P (one_shots 8 k i)) where
  found :
      (name : String) (fn : ℕ)
      → lookup_one_shot full_registry name ≡ some fn
      → (s : World) → P s
      → lookup_one_shot s.registry name ≡ some fn
  found name fn e s h = ap (λ (r : Registry). lookup_one_shot r name) (same s h) ∙ e

  terms-Keeps : (k : Kb) (i : ℕ) → Keeps P (fire_one_shot full (full_nodes i).term_fn_name k i)
  unfolding program cfl_column_term cfl_state_machine_term
  terms-Keeps k zero =
      Keeps-fire_one_shot_found full P "CFL_STATE_MACHINE_TERM" 3
        (found "CFL_STATE_MACHINE_TERM" 3 refl) k 0 (Runs-pure P tt tt)
  terms-Keeps k (suc zero) =
      Keeps-fire_one_shot_found full P "CFL_COLUMN_TERM" 1 (found "CFL_COLUMN_TERM" 1 refl) k 1
        (Runs-pure P tt tt)
  terms-Keeps k (suc (suc i)) =
      Keeps-fire_one_shot_found full P "bye" 8 (found "bye" 8 refl) k (suc (suc i))
        (logs k (suc (suc i)))

  logger-Keeps : (k : Kb) (i : ℕ) → Keeps P (fire full "bye" k i)
  unfolding program
  logger-Keeps k i = Keeps-fire_found full P "bye" 8 (found "bye" 8 refl) k i (logs k i)

pub full-IsQuiet : IsQuiet full full_registry
unfolding program
full-IsQuiet = record {
  booleans = λ j.
      Keeps-fire_boolean full (IsOff full_registry j)
        (λ fn k i t e d. record { at = λ s h. (h, tt) });
  terms =
      λ j. terms-Keeps (IsOff full_registry j) (λ s h. h.0) (λ k i. record { at = λ s h. (h, tt) });
}

abbrev full_down : World
full_down = (terminate_node_tree full kb 0 full_up).1

terminate_node_tree-full : terminate_node_tree full kb 0 full_up ≡ (ok tt, full_down)
unfolding program cfl_column_term cfl_state_machine_term
terminate_node_tree-full = refl

full-Linked : Linked full (branch 0 below no_trees)
full-Linked = (refl, (refl, (refl, tt, tt), (refl, tt, tt)), tt)

terminate_node_tree-disables_example :
    All (λ j. is_enabled full_down j ≡ false) (teardown_order (is_enabled full_up) 0 below)
    × ((j : ℕ) → is_enabled full_up j ≡ false → is_enabled full_down j ≡ false)
unfolding program
terminate_node_tree-disables_example =
    terminate_node_tree-disables full kb 0 below full_up full_down full-IsQuiet full-Linked refl
      (omega arith) terminate_node_tree-full

-- a catch node whose child for the recovery, node 2, has ended
abbrev recovering : ExceptionState
recovering = record {
  exception_stage = stage_recovery;
  main_link = 1;
  recovery_link = 2;
  finalize_link = 3;
  parent_exception_node = none;
  logging_fn = "bye";
  boolean_filter_fn = "watch";
  raised_exception = none;
  heartbeat_enabled = true;
  heartbeat_time_out = 1;
  heartbeat_count = 0;
  step_count = 0;
}

abbrev catching : World
catching = record full_up {
  control = λ j. record fresh_control {
    enabled = not (j == 2);
    initialized = true;
    exception_state = some recovering;
  };
}

full-IsUndisturbed : IsUndisturbed full "bye" (HasStage full_registry 1 "bye" 0)
unfolding program
full-IsUndisturbed = record {
  booleans = λ fn k i t e d. record { at = λ s h. (h, tt) };
  terms =
      terms-Keeps (HasStage full_registry 1 "bye" 0) (λ s h. h.0)
        (λ k i. record { at = λ s h. (h, tt) });
  logger =
      logger-Keeps (HasStage full_registry 1 "bye" 0) (λ s h. h.0)
        (λ k i. record { at = λ s h. (h, tt) });
}

cfl_exception_catch_main-HasStage_example :
    HasStage full_registry 1 "bye" 0 (cfl_exception_catch_main full kb none 0 tick catching).1
cfl_exception_catch_main-HasStage_example =
    cfl_exception_catch_main-HasStage full 0 kb none tick catching recovering full-IsUndisturbed
      refl
