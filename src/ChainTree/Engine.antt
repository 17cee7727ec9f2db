-- ===== src/ChainTree/Engine.antt =====
-- chain_tree/ct_runtime/engine.py: enabling, disabling and tearing down nodes, and the visit of a
-- node. The crash callback, which only observes an exception that goes on, is left out.
pub mod Teardown
pub mod Signals
pub mod Kbs
pub mod MainLoop
use robot_person.Base.{
  ℕ, String, Bool, true, false, not, ◌&&◌, Option, none, some, List, [], ◌∷◌, ◌++◌, str_eq,
  if◌then◌else◌,
}
use mathlib.Core.List.{reverse}
use robot_person.ChainTree.Codes.{
  CflCode, cfl_continue, cfl_halt, cfl_terminate, cfl_reset, cfl_disable, cfl_skip_continue,
  cfl_terminate_system, unknown_code, is_valid_cfl_code, Signal, ct_continue, ct_skip_children,
  ct_stop_siblings, ct_stop_all, cfl_event_type_null, cfl_terminate_event,
}
use robot_person.ChainTree.Values.{Datum, null, node_ref, Event}
use robot_person.ChainTree.Registry.{Registry, lookup_main, lookup_boolean, lookup_one_shot}
use robot_person.ChainTree.State.{
  World, Control, Kb, Result, ok, Stateful, and_then, lookup_error, value_error, type_error, Action,
  pure, raise, gets, modify, get_control, modify_control, ◌>>=◌, ◌>>◌,
}
use robot_person.ChainTree.Node.{Program, MainFn, is_leaf, is_enabled, enabled_links}
use robot_person.ChainTree.Walker.{walk}

-- `ctrl["enabled"] = e; ctrl["initialized"] = False`
abbrev pub set_flags : Bool → Control → Control
set_flags e c = record c { enabled = e; initialized = false }

unfoldable pub enable_node : ℕ → Action (Unit {0})
enable_node i = modify_control i (set_flags true)

abbrev pub clear_flags : ℕ → Action (Unit {0})
clear_flags i = modify_control i (set_flags false)

-- an optional name that is neither None nor empty
abbrev pub is_given : Option String → Bool
is_given none = false
is_given (some name) = not (str_eq name "")

abbrev pub named : Option String → String
named none = ""
named (some name) = name

module _ (p : Program) where
  unfoldable pub call_boolean : Option ℕ → Kb → ℕ → String → String → Datum → Action Bool
  call_boolean none kb i event_type event_id payload = raise lookup_error
  call_boolean (some fn) kb i event_type event_id payload =
      p.boolean_fn fn kb i event_type event_id payload

  unfoldable pub call_one_shot : Option ℕ → Kb → ℕ → Action (Unit {0})
  call_one_shot none kb i = raise lookup_error
  call_one_shot (some fn) kb i = p.one_shot_fn fn kb i

  -- the boolean function of a node that is torn down, if it names one
  unfoldable pub fire_boolean : Kb → ℕ → Action (Unit {0})
  fire_boolean kb i =
      if is_given (p.nodes i).boolean_fn_name
      then (do
        fn ← gets (λ s. lookup_boolean s.registry (named (p.nodes i).boolean_fn_name))
        _ ← call_boolean fn kb i cfl_event_type_null cfl_terminate_event null
        pure tt)
      else pure tt

  -- an optional one-shot of a node, by its name
  unfoldable pub fire_one_shot : Option String → Kb → ℕ → Action (Unit {0})
  fire_one_shot name kb i =
      if is_given name
      then (do fn ← gets (λ s. lookup_one_shot s.registry (named name)); call_one_shot fn kb i)
      else pure tt

  unfoldable pub disable_node : Kb → ℕ → Action (Unit {0})
  disable_node kb i = do
    c ← get_control i
    clear_flags i
    if c.enabled && c.initialized
        then (do fire_boolean kb i; fire_one_shot (p.nodes i).term_fn_name kb i)
        else pure tt

  -- `disable_node` on each node of a list, in its order
  unfoldable pub disable_all : Kb → List ℕ → Action (Unit {0})
  disable_all kb [] = pure tt
  disable_all kb (i ∷ is) = do disable_node kb i; disable_all kb is

  -- phase 1 at a node: the local list grows by the enabled nodes
  unfoldable pub phase1_visit : ℕ → ℕ → Stateful (World × List ℕ) Signal
  unfolding if◌then◌else◌
  phase1_visit i level v = (ok ct_continue, if is_enabled v.0 i then (v.0, v.1 ++ i ∷ []) else v)

  -- phase 1: the enabled nodes that the walk reaches, in the order of its visits
  unfoldable pub record_enabled : ℕ → Stateful (World × List ℕ) (Unit {0})
  record_enabled i = walk phase1_visit (enabled_links (λ v. is_enabled v.0) p) p.rounds i

  -- phase 2: the recorded nodes in reverse
  unfoldable pub deliver : Kb → Result (Unit {0}) × (World × List ℕ) → Result (Unit {0}) × World
  deliver kb (r, (s, term_list)) = and_then r (λ _. disable_all kb (reverse term_list)) s

  unfoldable pub terminate_node_tree : Kb → ℕ → Action (Unit {0})
  terminate_node_tree kb i =
      if is_leaf p i then disable_node kb i else (λ s. deliver kb (record_enabled i (s, [])))

module _ (p : Program) (mains : ℕ → MainFn) where
  unfoldable pub initialize : Kb → ℕ → Control → Action (Unit {0})
  initialize kb i c = if c.initialized then pure tt else do
    fire_one_shot p (p.nodes i).init_fn_name kb i
    modify_control i (λ d. record d { initialized = true })

  unfoldable pub call_main : Option ℕ → MainFn
  call_main none kb name i event = raise lookup_error
  call_main (some fn) kb name i event = mains fn kb name i event

  -- CFL_RESET of a node with this parent
  unfoldable pub reset_parent : Option ℕ → Kb → ℕ → Action Signal
  reset_parent none kb i = do terminate_node_tree p kb i; enable_node i; pure ct_stop_all
  reset_parent (some parent) kb i = do
    terminate_node_tree p kb parent
    enable_node parent
    pure ct_continue

  -- CFL_TERMINATE of a node with this parent
  unfoldable pub terminate_parent : Option ℕ → Kb → ℕ → Action Signal
  terminate_parent none kb i = do disable_node p kb i; pure ct_stop_all
  terminate_parent (some parent) kb i = do terminate_node_tree p kb parent; pure ct_skip_children

  -- the tree of the event's target
  unfoldable pub terminate_target : Datum → Kb → Action (Unit {0})
  terminate_target (node_ref target) kb = terminate_node_tree p kb target
  terminate_target _ kb = raise type_error

  -- the effects and the signal of what the main function returned
  unfoldable pub apply_code : CflCode → Kb → ℕ → Event → Action Signal
  apply_code cfl_continue kb i event = pure ct_continue
  apply_code cfl_halt kb i event = pure ct_stop_siblings
  apply_code cfl_skip_continue kb i event = pure ct_skip_children
  apply_code cfl_disable kb i event = do terminate_node_tree p kb i; pure ct_skip_children
  apply_code cfl_reset kb i event = reset_parent (p.nodes i).parent kb i
  apply_code cfl_terminate kb i event = terminate_parent (p.nodes i).parent kb i
  apply_code cfl_terminate_system kb i event = do
    modify (λ s. record s { cfl_engine_flag = false })
    terminate_target event.target kb
    pure ct_stop_all
  apply_code (unknown_code text) kb i event = raise value_error

  unfoldable pub run_main : Kb → ℕ → Event → Action Signal
  run_main kb i event =
      if is_given (p.nodes i).main_fn_name
      then (do
        fn ← gets (λ s. lookup_main s.registry (named (p.nodes i).main_fn_name))
        code ← call_main fn kb (p.nodes i).boolean_fn_name i event
        if is_valid_cfl_code code then apply_code code kb i event else raise value_error)
      else pure ct_continue

  unfoldable pub execute_node : Kb → Event → ℕ → ℕ → Action Signal
  execute_node kb event i level = do
    c ← get_control i
    if c.enabled then (do initialize kb i c; run_main kb i event) else pure ct_skip_children
