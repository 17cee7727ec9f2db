-- ===== src/ChainTree/Builtins/Machine/Change.antt =====
-- A change of state leaves exactly the new state enabled.
use robot_person.Base.{
  ℕ, zero, suc, ◌≡◌, ◌==◌, ==_iff, ◌≤◌, ◌+◌, ◌*◌, refl, sym, ap, ◌∙◌, String, Bool, true, false,
  Option, none, some, List, [], ◌∷◌, ◌++◌, All, get_elem?, Bool-cases, inl, inr, if◌then◌else◌,
}
use mathlib.Core.Path.{subst, subst⁻¹}
use robot_person.ChainTree.State.{
  World, Kb, Result, ok, pure, raise, get_data, ◌>>=◌, >>=-eq-ok, raised-ne-ok,
}
use robot_person.ChainTree.Node.{Program, is_enabled, is_leaf}
use robot_person.ChainTree.Walker.Recursive.{Forest, no_trees, branch, Linked, num_nodes}
use robot_person.ChainTree.Engine.{disable_node, record_enabled, deliver, terminate_node_tree}
use robot_person.ChainTree.Engine.Teardown.{children_first, when}
use robot_person.ChainTree.Engine.Teardown.Quiet.{
  IsQuiet, IsOff-disable_node, disable_node_self, terminate_node_tree-disables,
}
use robot_person.ChainTree.Builtins.Machine.{index_of, terminate_at, enter_state, do_change_state}
use robot_person.ChainTree.Builtins.Machine.Start.{IsIn, OthersOff, entered}

All-last : (P : ℕ → Type 0) (xs : List ℕ) (x : ℕ) → All P (xs ++ x ∷ []) → P x
All-last P [] x (h, _) = h
All-last P (y ∷ xs) x (_, h) = All-last P xs x h

some_inj : {a b : ℕ} → some a ≡ some b → a ≡ b
some_inj h = cc

All-get_elem? : (P : ℕ → Type 0) (xs : List ℕ) (k x : ℕ) → get_elem? xs k ≡ some x → All P xs → P x
All-get_elem? P [] k x e h = absurd cc
All-get_elem? P (y ∷ xs) zero x e (h, _) = subst P (some_inj e) h
All-get_elem? P (y ∷ xs) (suc k) x e (_, h) = All-get_elem? P xs k x e h

-- Every node has a finite tree below it, with rounds enough for a walk over it.
pub record HasTrees (p : Program) : Type 0 where
  pub below : ℕ → Forest
  pub links : (c : ℕ) → Linked p (branch c (below c) no_trees)
  pub room : (c : ℕ) → 2 * num_nodes (below c) + 2 ≤ p.rounds

module _ (p : Program) (trees : HasTrees p) (kb : Kb) where
  -- what is off behind a teardown
  abbrev Off : ℕ → World → World → Type 0
  Off c s u = (is_enabled u c ≡ false) × ((j : ℕ) → is_enabled s j ≡ false → is_enabled u j ≡ false)

  terminate_node_tree-Off :
      (c : ℕ) (s u : World)
      → IsQuiet p s.registry
      → is_enabled s c ≡ true
      → terminate_node_tree p kb c s ≡ (ok tt, u)
      → Off c s u
  unfolding terminate_node_tree if◌then◌else◌
  terminate_node_tree-Off c s u quiet on run = elim (Bool-cases (is_leaf p c)) [
    | inl leaf ↦
        let ended : disable_node p kb c s ≡ (ok tt, u) =
          subst
            (λ b.
              (if b then disable_node p kb c else λ s. deliver p kb (record_enabled p c (s, []))) s
              ≡ (ok tt, u))
            leaf run in
        subst (λ (o : Result (Unit {0}) × World). Off c s o.1) ended
          (
            (disable_node_self p s.registry quiet kb c s refl).1,
            λ j off. ((IsOff-disable_node p s.registry quiet kb c j).at s (refl, off)).0.1,
          )
    | inr tree ↦
        let (off, kept) =
          terminate_node_tree-disables p kb c (trees.below c) s u quiet (trees.links c) tree
            (trees.room c) run in
        let order = children_first (is_enabled s) (trees.below c) in
        let last =
          subst (λ b. All (λ j. is_enabled u j ≡ false) (order ++ when b (c ∷ []))) on off in
        (All-last (λ j. is_enabled u j ≡ false) order c last, kept)
  ]

  -- behind the end of the only enabled child, every child is off
  ended-OthersOff :
      (c new : ℕ) (cs : List ℕ) (s u : World)
      → Off c s u
      → All (λ j. is_enabled s j ≡ (c == j)) cs
      → OthersOff new cs u
  ended-OthersOff c new [] s u off only = tt
  ended-OthersOff c new (j ∷ cs) s u (gone, kept) (flag, only) = (
    λ _. elim (Bool-cases (c == j)) [
      | inl same ↦ subst (λ k. is_enabled u k ≡ false) ((==_iff c j).0 same) gone
      | inr other ↦ kept j (flag ∙ other)
    ],
    ended-OthersOff c new cs s u (gone, kept) only,
  )

  only-OthersOff :
      (c : ℕ) (cs : List ℕ) (s : World) → All (λ j. is_enabled s j ≡ (c == j)) cs → OthersOff c cs s
  only-OthersOff c [] s only = tt
  only-OthersOff c (j ∷ cs) s (flag, only) = (λ other. flag ∙ other, only-OthersOff c cs s only)

  on_flag :
      (k c : ℕ) (cs : List ℕ) (s : World)
      → get_elem? cs k ≡ some c
      → All (λ j. is_enabled s j ≡ (c == j)) cs
      → is_enabled s c ≡ true
  on_flag k c cs s here only =
      All-get_elem? (λ j. is_enabled s j ≡ (c == j)) cs k c here only ∙ (==_iff c c).1 refl

  module _ (i cur index : ℕ) (old name : String) where
    left_state :
        (same : Bool) (s u : World) (new : ℕ)
        → IsQuiet p s.registry
        → (index == cur) ≡ same
        → get_elem? (p.nodes i).children index ≡ some new
        → IsIn p i (some cur) old s
        → (if same then pure tt else terminate_at p kb (get_elem? (p.nodes i).children cur)) s
          ≡ (ok tt, u)
        → OthersOff new (p.nodes i).children u
    unfolding if◌then◌else◌ pure terminate_at
    left_state true s u new quiet same there (c, here, only, _, _) run =
        let stays : new ≡ c =
          some_inj
            (sym there ∙ ap (get_elem? (p.nodes i).children) ((==_iff index cur).0 same) ∙ here) in
        let unchanged : s ≡ u = ap (λ (o : Result (Unit {0}) × World). o.1) run in
        subst (OthersOff new (p.nodes i).children) unchanged (
          subst⁻¹ (λ k. OthersOff k (p.nodes i).children s) stays
            (only-OthersOff c (p.nodes i).children s only))
    left_state false s u new quiet other there (c, here, only, _, _) run =
        ended-OthersOff c new (p.nodes i).children s u
          (terminate_node_tree-Off c s u quiet (on_flag cur c (p.nodes i).children s here only)
            (subst (λ o. terminate_at p kb o s ≡ (ok tt, u)) here run))
          only

  enter_state-IsIn :
      (i cur : ℕ) (old name : String) (index : Option ℕ) (s t : World)
      → IsQuiet p s.registry
      → IsIn p i (some cur) old s
      → enter_state p kb i name cur index s ≡ (ok tt, t)
      → IsIn p i index name t
  unfolding enter_state raise
  enter_state-IsIn i cur old name none s t quiet inside run =
      absurd (raised-ne-ok (ap (λ (o : Result (Unit {0}) × World). o.0) run))
  enter_state-IsIn i cur old name (some index) s t quiet inside run =
      let children = (p.nodes i).children in
      let leave = if index == cur then pure tt else terminate_at p kb (get_elem? children cur) in
      let (_, u, left, behind) = >>=-eq-ok leave _ s t run in
      entered p i index name (get_elem? children index) u t refl
        (λ new there.
          left_state i cur index old name (index == cur) s u new quiet refl there inside left)
        behind

-- A state machine that is in one of its states, with only that child enabled and its data naming it,
-- is in the new state in the same sense when a change of state returns: the new name is among its
-- names, and of its children only the node at the place of that name is enabled. The functions that
-- a teardown runs, the nodes' boolean functions and termination functions in the registry, enable no
-- node and leave the registry as it is, and every node has a finite tree below it, with rounds enough
-- for a walk over it.
pub do_change_state-IsIn :
    (p : Program) (kb : Kb) (i : ℕ) (old name : String) (s t : World)
    → IsQuiet p s.registry
    → HasTrees p
    → IsIn p i (some (s.node_data i).current_state_index) old s
    → do_change_state p kb i name s ≡ (ok tt, t)
    → IsIn p i (index_of name (s.node_data i).state_names) name t
unfolding do_change_state get_data ◌>>=◌
do_change_state-IsIn p kb i old name s t quiet trees inside run =
    enter_state-IsIn p trees kb i (s.node_data i).current_state_index old name
      (index_of name (s.node_data i).state_names) s t quiet inside run
