-- ===== src/ChainTree/Samples.antt =====
-- A small program, and the theorems at concrete inputs. Node 0 is the root, with the children 1 and
-- 2; node 3 is a child of node 1.
pub mod Loops
pub mod Builtins
pub mod Services
pub mod Full
pub mod States
use robot_person.Base.{
  ℕ, zero, suc, ◌+◌, ◌*◌, ◌≡◌, ◌≢◌, ◌⊎◌, refl, String, Bool, true, false, not, ◌&&◌, Option, none,
  some, List, [], ◌∷◌, ◌++◌, ◌==◌, All, str_eq, lookup, insert, arith, if◌then◌else◌,
}
use robot_person.ChainTree.Codes.{
  CflCode, cfl_continue, cfl_reset, is_valid_cfl_code, Signal, ct_continue, ct_stop_all,
  code_to_signal,
}
use robot_person.ChainTree.Values.{Datum, null, node_ref, Event}
use robot_person.ChainTree.Registry.{
  Registry, callable, Side, done, refused, new_registry, register_fn, write_entry, is_other,
  register_in, lookup_in, lookup_boolean, lookup_one_shot,
}
use robot_person.ChainTree.Registry.Entries.{Registers, register_fn-Registers}
use robot_person.ChainTree.State.{
  World, Kb, ok, raised, value_error, Action, pure, raise, gets, modify, get_control,
  modify_control, no_data, new_engine, fresh_control, ◌>>=◌,
}
use robot_person.ChainTree.EventQueue.{make_event}
use robot_person.ChainTree.Node.{Node, Program, MainFn, is_leaf, is_enabled, enabled_links}
use robot_person.ChainTree.Walker.{walk, walk_stack}
use robot_person.ChainTree.Walker.Recursive.{
  Forest, no_trees, branch, Linked, unless_stopped, walk_forest, walk-walk_forest,
}
use robot_person.ChainTree.Engine.{
  set_flags, enable_node, call_boolean, call_one_shot, fire_boolean, fire_one_shot, disable_node,
  disable_all, phase1_visit, record_enabled, deliver, terminate_node_tree, reset_parent, apply_code,
}
use robot_person.ChainTree.Engine.Kbs.{add_kb, activate, activate_kb}
use robot_person.ChainTree.Engine.Kbs.Laws.{activate_kb-add_kb, kb_errors}
use robot_person.ChainTree.Engine.Teardown.{teardown_order, terminate_node_tree-disable_all}
use robot_person.ChainTree.Engine.Signals.{visit_signal, apply_code-signal}

abbrev node_of : Option ℕ → List ℕ → Node
node_of parent children = record {
  parent = parent;
  children = children;
  main_fn_name = none;
  boolean_fn_name = some "watch";
  init_fn_name = none;
  term_fn_name = some "bye";
}

abbrev node_at : List Node → ℕ → Node
node_at [] i = node_of none []
node_at (n ∷ ns) zero = n
node_at (n ∷ ns) (suc i) = node_at ns i

abbrev nodes : ℕ → Node
nodes = node_at (
    node_of none (1 ∷ 2 ∷ [])
    ∷ node_of (some 0) (3 ∷ [])
    ∷ node_of (some 0) []
    ∷ node_of (some 1) []
    ∷ [])

-- every boolean function answers False, and every one-shot logs a line
abbrev sample : Program
sample = record {
  nodes = nodes;
  boolean_fn = λ fn kb i event_type event_id payload. pure false;
  one_shot_fn = λ fn kb i. modify (λ s. record s { log = s.log ++ "bye" ∷ [] });
  get_time = λ n. n * 1000000000;
  parse_int = λ t. none;
  rounds = 10;
}

abbrev named_side : Side
named_side = record {
  tables = ("boolean", ("watch", 7) ∷ []) ∷ ("one_shot", ("bye", 8) ∷ []) ∷ [];
  descriptions = [];
}

abbrev sample_registry : Registry
sample_registry = record new_registry { cfl = named_side }

-- all nodes enabled and initialized
abbrev up : World
up = record (new_engine (λ _. no_data) sample_registry) {
  control = λ _. record fresh_control { enabled = true; initialized = true };
}

abbrev kb : Kb
kb = record { name = "kb"; root = 0 }

abbrev below : Forest
below = branch 1 (branch 3 no_trees no_trees) (branch 2 no_trees no_trees)

below-Linked : Linked sample (branch 0 below no_trees)
below-Linked = (refl, (refl, (refl, tt, tt), (refl, tt, tt)), tt)

program : Unit {0}
unfolding if◌then◌else◌ lookup insert is_valid_cfl_code new_registry register_fn write_entry
    is_other register_in lookup_in lookup_boolean lookup_one_shot pure raise gets modify get_control
    modify_control ◌>>=◌ make_event is_leaf walk walk_stack walk_forest enable_node call_boolean
    call_one_shot fire_boolean fire_one_shot disable_node disable_all phase1_visit record_enabled
    deliver terminate_node_tree reset_parent apply_code add_kb activate activate_kb
program = tt

-- a visit that logs
abbrev log_visit : ℕ → ℕ → Action Signal
log_visit i level s = (ok ct_continue, record s { log = s.log ++ "visit" ∷ [] })

walk-walk_forest_example :
    walk log_visit (enabled_links is_enabled sample) 10 0 up
    ≡ unless_stopped
        (walk_forest is_enabled log_visit (λ _. true) (branch 0 below no_trees) 0)
        (pure tt)
        up
walk-walk_forest_example =
    walk-walk_forest is_enabled sample log_visit 0 below 10 up below-Linked (omega arith)

-- the children come before their parents, the last child first
teardown_order-sample : teardown_order (is_enabled up) 0 below ≡ 2 ∷ 3 ∷ 1 ∷ 0 ∷ []
teardown_order-sample = refl

terminate_node_tree-disable_all_example :
    terminate_node_tree sample kb 0 up
    ≡ disable_all sample kb (teardown_order (is_enabled up) 0 below) up
unfolding program
terminate_node_tree-disable_all_example =
    terminate_node_tree-disable_all sample kb 0 below up below-Linked refl (omega arith)

abbrev no_mains : ℕ → MainFn
no_mains fn k name i e = pure cfl_continue

abbrev tick : Event
tick = make_event (node_ref 0) "" "CFL_TIMER_EVENT" null "normal"

abbrev after_reset : World
after_reset = (apply_code sample no_mains cfl_reset kb 0 tick up).1

apply_code-sample :
    apply_code sample no_mains cfl_reset kb 0 tick up ≡ (ok ct_stop_all, after_reset)
unfolding program
apply_code-sample = refl

apply_code-signal_example : ct_stop_all ≡ visit_signal cfl_reset (nodes 0).parent ct_continue
unfolding program code_to_signal
apply_code-signal_example =
    apply_code-signal sample no_mains kb 0 cfl_reset tick up after_reset ct_continue ct_stop_all
      refl apply_code-sample

abbrev added : World
added = (add_kb kb up).1

abbrev activated : World
activated = (activate_kb "kb" added).1

activate_kb-add_kb_example :
    ((add_kb kb up).0 ≡ ok tt)
    × ((activate_kb "kb" added).0 ≡ ok kb)
    × (activated.active_kbs ≡ [] ++ kb ∷ [])
    × (activated.control 0 ≡ set_flags true (up.control 0))
    × (activate_kb "kb" activated ≡ (ok kb, activated))
    × (add_kb kb activated ≡ (raised value_error, activated))
unfolding program
activate_kb-add_kb_example = activate_kb-add_kb kb kb up refl refl refl

kb_errors_example :
    ((lookup "kb" activated.kbs ≡ none)
      × ((add_kb kb activated).0 ≡ ok tt)
      × (activate_kb "kb" activated ≡ (raised value_error, activated)))
    ⊎ ((old : Kb) × (lookup "kb" activated.kbs ≡ some old)
        × (add_kb kb activated ≡ (raised value_error, activated))
        × ((activate_kb "kb" activated).0 ≡ ok old))
kb_errors_example = kb_errors kb activated

register_fn-Registers_example :
    Registers named_side "boolean" "watch"
      (callable 9)
      "sees"
      (register_fn named_side "boolean" "watch" (callable 9) "sees")
register_fn-Registers_example =
    register_fn-Registers named_side "boolean" "watch" (callable 9) "sees"
