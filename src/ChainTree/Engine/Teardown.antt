-- ===== src/ChainTree/Engine/Teardown.antt =====
-- What tearing a subtree down does: in which order, and that it leaves the subtree disabled.
pub mod Quiet
use robot_person.Base.{
  ℕ, zero, suc, ◌+◌, ◌*◌, ◌≡◌, ◌≤◌, refl, sym, ap, ◌∙◌, Bool, true, false, List, [], ◌∷◌, ◌++◌,
  Bool-cases, inl, inr, if◌then◌else◌, arith,
}
use mathlib.Core.List.{reverse, reverse-append, append_assoc, append-nil}
use mathlib.Core.Path.{ap₂}
use robot_person.ChainTree.Codes.{ct_continue}
use robot_person.ChainTree.State.{World, Kb, Result, ok, Stateful, pure, gets, and_then, ◌>>=◌}
use robot_person.ChainTree.Node.{Program, is_leaf, is_enabled}
use robot_person.ChainTree.Walker.Recursive.{
  Forest, no_trees, branch, Linked, num_nodes, after_signal, walk_forest, walk-walk_forest,
}
use robot_person.ChainTree.Engine.{
  phase1_visit, record_enabled, deliver, disable_all, terminate_node_tree,
}

abbrev both_enabled : World × List ℕ → ℕ → Bool
both_enabled v = is_enabled v.0

abbrev pub when : Bool → List ℕ → List ℕ
when true xs = xs
when false xs = []

-- the enabled nodes that are reached through enabled ones, each before its descendants
abbrev preorder : (ℕ → Bool) → Forest → List ℕ
preorder enabled no_trees = []
preorder enabled (branch i below beside) =
    when (enabled i) (i ∷ preorder enabled below) ++ preorder enabled beside

-- the same nodes from the last to the first, each behind its descendants
abbrev pub children_first : (ℕ → Bool) → Forest → List ℕ
children_first enabled no_trees = []
children_first enabled (branch i below beside) =
    children_first enabled beside ++ when (enabled i) (children_first enabled below ++ i ∷ [])

-- The nodes of the subtree at `i` that a teardown disables, in the order in which it does: each
-- behind the enabled nodes below it.
abbrev pub teardown_order : (ℕ → Bool) → ℕ → Forest → List ℕ
teardown_order enabled i below = children_first enabled below ++ when (enabled i) (i ∷ [])

reverse-when :
    (b : Bool) (i : ℕ) (xs ys : List ℕ)
    → reverse (when b (i ∷ xs) ++ ys) ≡ reverse ys ++ when b (reverse xs ++ i ∷ [])
reverse-when true i xs ys =
    reverse-append (i ∷ xs) ys ∙ ap (λ l. reverse ys ++ l) (reverse-append (i ∷ []) xs)
reverse-when false i xs ys = sym (append-nil (reverse ys))

reverse-preorder :
    (enabled : ℕ → Bool) (ts : Forest) → reverse (preorder enabled ts) ≡ children_first enabled ts
reverse-preorder enabled no_trees = refl
reverse-preorder enabled (branch i below beside) =
    reverse-when (enabled i) i (preorder enabled below) (preorder enabled beside)
    ∙ ap₂ (λ xs ys. xs ++ when (enabled i) (ys ++ i ∷ [])) (reverse-preorder enabled beside)
        (reverse-preorder enabled below)

module _ (p : Program) where
  phase1_visit-enabled :
      (s : World) (i level : ℕ) (found : List ℕ) (b : Bool)
      → is_enabled s i ≡ b
      → phase1_visit p i level (s, found) ≡ (ok ct_continue, (s, found ++ when b (i ∷ [])))
  unfolding phase1_visit if◌then◌else◌
  phase1_visit-enabled s i level found true e =
      ap (λ c. (ok ct_continue, if c then (s, found ++ i ∷ []) else (s, found))) e
  phase1_visit-enabled s i level found false e =
      ap (λ c. (ok ct_continue, if c then (s, found ++ i ∷ []) else (s, found))) e
      ∙ ap (λ l. (ok ct_continue, (s, l))) (sym (append-nil found))

  -- one tree of phase 1, over what it does below and beside
  phase1-branch :
      (s : World) (i level : ℕ) (below : Forest) (rest : List ℕ) (b : Bool)
      (down : (ℕ → Bool) → Stateful (World × List ℕ) Bool) (others : Stateful (World × List ℕ) Bool)
      (found : List ℕ)
      → is_enabled s i ≡ b
      → ((l : List ℕ)
          → down (is_enabled s) (s, l) ≡ (ok false, (s, l ++ preorder (is_enabled s) below)))
      → ((l : List ℕ) → others (s, l) ≡ (ok false, (s, l ++ rest)))
      → (if b
            then phase1_visit p i level >>= after_signal both_enabled (phase1_visit p) down others
            else others)
          (s, found)
        ≡ (ok false, (s, found ++ (when b (i ∷ preorder (is_enabled s) below) ++ rest)))
  unfolding pure gets ◌>>=◌ if◌then◌else◌
  phase1-branch s i level below rest true down others found e d o =
      let below' = preorder (is_enabled s) below in
      ap (λ v. and_then v.0 (after_signal both_enabled (phase1_visit p) down others) v.1)
        (phase1_visit-enabled s i level found true e)
      ∙ ap (λ v. and_then v.0 (λ stopped. if stopped then pure true else others) v.1)
          (d (found ++ i ∷ []))
      ∙ o ((found ++ i ∷ []) ++ below')
      ∙ ap (λ l. (ok false, (s, l)))
          (append_assoc (found ++ i ∷ []) below' rest
            ∙ append_assoc found (i ∷ []) (below' ++ rest))
  phase1-branch s i level below rest false down others found e d o = o found

  -- phase 1 over some trees appends their enabled nodes to the list
  walk_forest-preorder :
      (s : World) (ts : Forest) (level : ℕ) (found : List ℕ)
      → walk_forest both_enabled (phase1_visit p) (is_enabled s) ts level (s, found)
        ≡ (ok false, (s, found ++ preorder (is_enabled s) ts))
  unfolding walk_forest pure
  walk_forest-preorder s no_trees level found =
      ap (λ l. (ok false, (s, l))) (sym (append-nil found))
  walk_forest-preorder s (branch i below beside) level found =
      phase1-branch s i level below (preorder (is_enabled s) beside) (is_enabled s i) _ _ found refl
        (λ l. walk_forest-preorder s below (suc level) l)
        (λ l. walk_forest-preorder s beside level l)

  abbrev after_down : Result Bool × (World × List ℕ) → Result (Unit {0}) × (World × List ℕ)
  after_down v = and_then v.0 (λ stopped. if stopped then pure tt else pure tt) v.1

  -- phase 1 of a teardown
  record_enabled_lem :
      (i : ℕ) (below : Forest) (s : World)
      → Linked p (branch i below no_trees)
      → 2 * num_nodes below + 2 ≤ p.rounds
      → record_enabled p i (s, [])
        ≡ (ok tt, (s, when (is_enabled s i) (i ∷ []) ++ preorder (is_enabled s) below))
  unfolding record_enabled walk_forest pure gets ◌>>=◌ if◌then◌else◌
  record_enabled_lem i below s l h =
      walk-walk_forest both_enabled p (phase1_visit p) i below p.rounds (s, []) l h
      ∙ ap
          (λ v. after_down (
            and_then v.0
              (after_signal both_enabled (phase1_visit p)
                (λ e. walk_forest both_enabled (phase1_visit p) e below 1) (pure false))
              v.1))
          (phase1_visit-enabled s i 0 [] (is_enabled s i) refl)
      ∙ ap
          (λ v.
            after_down (and_then v.0 (λ stopped. if stopped then pure true else pure false) v.1))
          (walk_forest-preorder s below 1 (when (is_enabled s i) (i ∷ [])))

  -- Tearing down the tree at a node with children, in a program whose nodes are linked as the tree
  -- says and whose walks have rounds enough, is `disable_node` on each of its enabled nodes that are
  -- reached through enabled nodes, in an order in which each comes behind all those below it.
  pub terminate_node_tree-disable_all :
      (kb : Kb) (i : ℕ) (below : Forest) (s : World)
      → Linked p (branch i below no_trees)
      → is_leaf p i ≡ false
      → 2 * num_nodes below + 2 ≤ p.rounds
      → terminate_node_tree p kb i s ≡ disable_all p kb (teardown_order (is_enabled s) i below) s
  unfolding terminate_node_tree deliver if◌then◌else◌
  terminate_node_tree-disable_all kb i below s l leaf h =
      let enabled = is_enabled s in
      rw leaf (
        ap (λ v. and_then v.0 (λ _. disable_all p kb (reverse v.1.1)) v.1.0)
          (record_enabled_lem i below s l h)
        ∙ ap (λ order. disable_all p kb order s)
            (reverse-when (enabled i) i [] (preorder enabled below)
              ∙ ap (λ xs. xs ++ when (enabled i) (i ∷ [])) (reverse-preorder enabled below)))
