-- ===== src/ChainTree/Engine/Teardown/Quiet.antt =====
-- Where no function that a teardown runs enables a node, a teardown leaves what it reaches disabled.
use robot_person.Base.{ℕ, ◌*◌, ◌+◌, ◌≤◌, ◌≡◌, refl, sym, ap, ◌∙◌, false, List, [], ◌∷◌, All}
use mathlib.Core.Path.{subst}
use robot_person.ChainTree.Registry.{Registry}
use robot_person.ChainTree.State.{
  World, Kb, Result, ok, get_control, modify_control, update-cases, update_self, Control, ◌>>=◌,
  ◌>>◌, >>=-eq-ok,
}
use robot_person.ChainTree.Node.{Program, is_leaf, is_enabled}
use robot_person.ChainTree.Walker.Recursive.{Forest, no_trees, branch, Linked, num_nodes}
use robot_person.ChainTree.Engine.{
  set_flags, clear_flags, fire_boolean, fire_one_shot, disable_node, disable_all,
  terminate_node_tree,
}
use robot_person.ChainTree.Engine.Teardown.{teardown_order, terminate_node_tree-disable_all}
use robot_person.ChainTree.Invariants.{Keeps, Runs-if, Runs-pure, Keeps->>=}
use robot_person.ChainTree.Invariants.Teardown.{
  OutlivesTeardown, Keeps-disable_node, Keeps-disable_all,
}

-- a node is disabled, while the registry is the given one
abbrev pub IsOff : Registry → ℕ → World → Type 0
IsOff r j s = (s.registry ≡ r) × (is_enabled s j ≡ false)

-- The functions that a teardown runs enable no node: the boolean functions of the nodes, which it
-- calls with CFL_TERMINATE_EVENT, and their termination functions, by their names in the registry.
-- Of other functions, such as those that initialize a node, nothing is said.
pub record IsQuiet (p : Program) (r : Registry) : Type 0 where
  pub booleans : (j : ℕ) (kb : Kb) (i : ℕ) → Keeps (IsOff r j) (fire_boolean p kb i)
  pub terms :
      (j : ℕ) (kb : Kb) (i : ℕ) → Keeps (IsOff r j) (fire_one_shot p (p.nodes i).term_fn_name kb i)

Keeps-clear_flags : (r : Registry) (j i : ℕ) → Keeps (IsOff r j) (clear_flags i)
unfolding modify_control
Keeps-clear_flags r j i = record {
  at = λ s h. (
    (
      h.0,
      update-cases s.control i (set_flags false (s.control i)) (λ c. c.enabled ≡ false) j refl h.1,
    ),
    tt,
  );
}

clear_flags_self : (i : ℕ) (s : World) → is_enabled (clear_flags i s).1 i ≡ false
unfolding modify_control
clear_flags_self i s =
    ap (λ (c : Control). c.enabled) (update_self s.control i (set_flags false (s.control i)))

-- a fact about the state in which a run ended
stays :
    {o : Result (Unit {0}) × World} {t : World} (P : World → Type 0) → o ≡ (ok tt, t) → P o.1 → P t
stays P e off = subst (λ (o : Result (Unit {0}) × World). P o.1) e off

module _ (p : Program) (r : Registry) (quiet : IsQuiet p r) where
  IsQuiet-OutlivesTeardown : (j : ℕ) → OutlivesTeardown p (IsOff r j)
  IsQuiet-OutlivesTeardown j = record {
    clears = Keeps-clear_flags r j;
    booleans = quiet.booleans j;
    terms = quiet.terms j;
  }

  pub IsOff-disable_node : (kb : Kb) (i j : ℕ) → Keeps (IsOff r j) (disable_node p kb i)
  IsOff-disable_node kb i j = Keeps-disable_node p (IsOff r j) (IsQuiet-OutlivesTeardown j) kb i

  IsOff-disable_all : (kb : Kb) (is : List ℕ) (j : ℕ) → Keeps (IsOff r j) (disable_all p kb is)
  IsOff-disable_all kb is j = Keeps-disable_all p (IsOff r j) (IsQuiet-OutlivesTeardown j) kb is

  IsOff-fired :
      (kb : Kb) (i j : ℕ)
      → Keeps (IsOff r j) (do fire_boolean p kb i; fire_one_shot p (p.nodes i).term_fn_name kb i)
  IsOff-fired kb i j = Keeps->>= (IsOff r j) _ _ (quiet.booleans j kb i) (λ _. quiet.terms j kb i)

  pub disable_node_self :
      (kb : Kb) (i : ℕ) (s : World) → s.registry ≡ r → IsOff r i (disable_node p kb i s).1
  unfolding disable_node ◌>>=◌ get_control modify_control
  disable_node_self kb i s same =
      ((Runs-if (IsOff r i) _ _ _ (IsOff-fired kb i i) (Runs-pure (IsOff r i) tt tt)).at
        (clear_flags i s).1 (same, clear_flags_self i s)).0

  -- a node that was disabled on the way is disabled in the end
  disable_all-disables :
      (kb : Kb) (is : List ℕ) (s t : World)
      → s.registry ≡ r
      → disable_all p kb is s ≡ (ok tt, t)
      → All (λ j. is_enabled t j ≡ false) is
  unfolding disable_all
  disable_all-disables kb [] s t same e = tt
  disable_all-disables kb (i ∷ is) s t same e =
      let (_, u, first, others) = >>=-eq-ok (disable_node p kb i) _ s t e in
      let off = stays (IsOff r i) first (disable_node_self kb i s same) in
      (
        (stays (IsOff r i) others ((IsOff-disable_all kb is i).at u off).0).1,
        disable_all-disables kb is u t off.0 others,
      )

-- If no function that a teardown runs enables a node, a teardown of a tree that returns leaves
-- disabled every node that it found enabled and reached through enabled nodes, and no node enabled
-- that was disabled before. The functions are the nodes' boolean functions and termination functions
-- in the registry, which they leave as it is. The program's nodes are linked as the tree says, with
-- rounds enough for a walk.
pub terminate_node_tree-disables :
    (p : Program) (kb : Kb) (i : ℕ) (below : Forest) (s t : World)
    → IsQuiet p s.registry
    → Linked p (branch i below no_trees)
    → is_leaf p i ≡ false
    → 2 * num_nodes below + 2 ≤ p.rounds
    → terminate_node_tree p kb i s ≡ (ok tt, t)
    → All (λ j. is_enabled t j ≡ false) (teardown_order (is_enabled s) i below)
      × ((j : ℕ) → is_enabled s j ≡ false → is_enabled t j ≡ false)
terminate_node_tree-disables p kb i below s t quiet l leaf h e =
    let order = teardown_order (is_enabled s) i below in
    let run = sym (terminate_node_tree-disable_all p kb i below s l leaf h) ∙ e in
    (
      disable_all-disables p s.registry quiet kb order s t refl run,
      λ j off.
          (stays (IsOff s.registry j) run
            ((IsOff-disable_all p s.registry quiet kb order j).at s (refl, off)).0).1,
    )
