-- ===== src/ChainTree/Walker/Recursive.antt =====
-- The walk over a finite tree is the recursive depth-first traversal.
use robot_person.Base.{
  ℕ, zero, suc, ◌+◌, ◌*◌, ◌≡◌, ◌≤◌, refl, sym, ap, ◌∙◌, Bool, true, false, List, [], ◌∷◌, length,
  Bool-cases, inl, inr, if◌then◌else◌, arith,
}
use robot_person.ChainTree.Codes.{
  Signal, ct_continue, ct_skip_children, ct_stop_siblings, ct_stop_all,
}
use robot_person.ChainTree.State.{Result, ok, raised, Stateful, pure, gets, and_then, ◌>>=◌}
use robot_person.ChainTree.Node.{Program, select, enabled_links}
use robot_person.ChainTree.Walker.{after_visit, walk_stack, after_start, walk}

-- A list of trees: the first one's node, the trees below it, and the trees beside it.
pub data Forest : Type 0 where
  no_trees : Forest
  branch : ℕ → (below beside : Forest) → Forest

abbrev pub roots : Forest → List ℕ
roots no_trees = []
roots (branch i below beside) = i ∷ roots beside

-- the links of the program's nodes are those of the forest
abbrev pub Linked : Program → Forest → Type 0
Linked p no_trees = Unit
Linked p (branch i below beside) =
    ((p.nodes i).children ≡ roots below) × Linked p below × Linked p beside

abbrev pub num_nodes : Forest → ℕ
num_nodes no_trees = 0
num_nodes (branch i below beside) = suc (num_nodes below + num_nodes beside)

-- the rounds of the loop: one for each node, and one for the end of each list of children
abbrev pub num_rounds : Forest → ℕ
num_rounds no_trees = 1
num_rounds (branch i below beside) = suc (num_rounds below + num_rounds beside)

pub num_rounds_lem : (ts : Forest) → num_rounds ts ≡ 2 * num_nodes ts + 1
num_rounds_lem no_trees = omega arith
num_rounds_lem (branch i below beside) = omega (arith, num_rounds_lem below, num_rounds_lem beside)

-- `rest` unless the walk was stopped
abbrev pub unless_stopped :
    {S : Type 0} → Stateful S Bool → Stateful S (Unit {0}) → Stateful S (Unit {0})
unless_stopped m rest = m >>= λ stopped. if stopped then pure tt else rest

module _ {S : Type 0} (is_enabled : S → ℕ → Bool) (visit : ℕ → ℕ → Stateful S Signal) where
  -- How the traversal goes on behind a visit: down into the children that are enabled then, and
  -- to the siblings. The result says whether the whole walk was stopped.
  abbrev pub after_signal :
      ((ℕ → Bool) → Stateful S Bool) → Stateful S Bool → Signal → Stateful S Bool
  after_signal down beside ct_stop_all = pure true
  after_signal down beside ct_stop_siblings = pure false
  after_signal down beside ct_skip_children = beside
  after_signal down beside ct_continue = do
    enabled ← gets is_enabled
    stopped ← down enabled
    if stopped then pure true else beside

  -- the recursive traversal of those of the trees whose root `keep` lets pass
  unfoldable pub walk_forest : (ℕ → Bool) → Forest → ℕ → Stateful S Bool
  walk_forest keep no_trees level = pure false
  walk_forest keep (branch i below beside) level =
      let others = walk_forest keep beside level in
      if keep i
      then visit i level >>= after_signal (λ enabled. walk_forest enabled below (suc level)) others
      else others

module _ {S : Type 0} (is_enabled : S → ℕ → Bool) (p : Program)
    (visit : ℕ → ℕ → Stateful S Signal) where
  abbrev get_children : ℕ → Stateful S (List ℕ)
  get_children = enabled_links is_enabled p

  abbrev loop : ℕ → List (List ℕ) → Stateful S (Unit {0})
  loop r stack = walk_stack visit get_children r stack

  -- the loop over some levels is `rest`, whenever at least `k` rounds are left
  abbrev IsLoop : ℕ → List (List ℕ) → Stateful S (Unit {0}) → Type 0
  IsLoop k levels rest = (r : ℕ) (s : S) → k ≤ r → loop r levels s ≡ rest s

  stopped_assoc :
      (o : Result Bool × S) (others : Stateful S Bool) (rest : Stateful S (Unit {0}))
      → let inner = λ (stopped : Bool). if stopped then pure true else others in
        let outer = λ (stopped : Bool). if stopped then pure tt else rest in
        and_then (and_then o.0 inner o.1).0 outer (and_then o.0 inner o.1).1
        ≡ and_then o.0 (λ stopped. if stopped then pure tt else unless_stopped others rest) o.1
  unfolding pure ◌>>=◌ if◌then◌else◌
  stopped_assoc (ok true, u) others rest = refl
  stopped_assoc (ok false, u) others rest = refl
  stopped_assoc (raised e, u) others rest = refl

  after_visit-after_signal :
      (r k i : ℕ) (siblings : List ℕ) (levels : List (List ℕ)) (below beside : Forest)
      (others : Stateful S Bool) (rest : Stateful S (Unit {0})) (signal : Signal) (u : S)
      → (p.nodes i).children ≡ roots below
      → k ≤ r
      → IsLoop k levels rest
      → loop r (siblings ∷ levels) u ≡ unless_stopped others rest u
      → ((keep : ℕ → Bool)
          → loop r (select keep (roots below) ∷ siblings ∷ levels) u
            ≡ unless_stopped
                (walk_forest is_enabled visit keep below (suc (suc (length levels))))
                (unless_stopped others rest)
                u)
      → after_visit visit get_children (λ stack. loop r stack) i siblings levels signal u
        ≡ unless_stopped
            (after_signal is_enabled visit
              (λ e. walk_forest is_enabled visit e below (suc (suc (length levels))))
              others
              signal)
            rest
            u
  unfolding pure ◌>>=◌ if◌then◌else◌
  after_visit-after_signal r k i siblings levels below beside others rest ct_stop_all u l h a e d =
      refl
  after_visit-after_signal r k i siblings levels below beside others rest ct_stop_siblings u l h a e
        d =
      a r u h
  after_visit-after_signal r k i siblings levels below beside others rest ct_skip_children u l h a e
        d =
      e
  after_visit-after_signal r k i siblings levels below beside others rest ct_continue u l h a e d =
      ap (λ cs. loop r (select (is_enabled u) cs ∷ siblings ∷ levels) u) l
      ∙ d (is_enabled u)
      ∙ sym (
          stopped_assoc
            (walk_forest is_enabled visit (is_enabled u) below (suc (suc (length levels))) u) others
            rest)

  -- the rest of a round of the loop, behind the visit of the first child
  visited :
      (r k i : ℕ) (siblings : List ℕ) (levels : List (List ℕ)) (below beside : Forest)
      (others : Stateful S Bool) (rest : Stateful S (Unit {0})) (o : Result Signal × S)
      → (p.nodes i).children ≡ roots below
      → k ≤ r
      → IsLoop k levels rest
      → ((u : S) → loop r (siblings ∷ levels) u ≡ unless_stopped others rest u)
      → ((keep : ℕ → Bool) (u : S)
          → loop r (select keep (roots below) ∷ siblings ∷ levels) u
            ≡ unless_stopped
                (walk_forest is_enabled visit keep below (suc (suc (length levels))))
                (unless_stopped others rest)
                u)
      → and_then o.0 (after_visit visit get_children (λ stack. loop r stack) i siblings levels) o.1
        ≡ unless_stopped
            (λ (s : S).
              and_then o.0
                (after_signal is_enabled visit
                  (λ e. walk_forest is_enabled visit e below (suc (suc (length levels))))
                  others)
                o.1)
            rest
            o.1
  unfolding ◌>>=◌
  visited r k i siblings levels below beside others rest (raised e, u) l h a b d = refl
  visited r k i siblings levels below beside others rest (ok signal, u) l h a b d =
      after_visit-after_signal r k i siblings levels below beside others rest signal u l h a (b u)
        (λ keep. d keep u)

  IsLoop-walk_forest :
      (ts : Forest) (keep : ℕ → Bool) (levels : List (List ℕ)) (k : ℕ)
      (rest : Stateful S (Unit {0}))
      → Linked p ts
      → IsLoop k levels rest
      → IsLoop
          (num_rounds ts + k)
          (select keep (roots ts) ∷ levels)
          (unless_stopped (walk_forest is_enabled visit keep ts (suc (length levels))) rest)
  unfolding walk_stack walk_forest pure ◌>>=◌ if◌then◌else◌
  IsLoop-walk_forest no_trees keep levels k rest l a zero s h = absurd (omega arith)
  IsLoop-walk_forest no_trees keep levels k rest l a (suc r) s h = a r s (omega arith)
  IsLoop-walk_forest (branch i below beside) keep levels k rest l a zero s h = absurd (omega arith)
  IsLoop-walk_forest (branch i below beside) keep levels k rest l a (suc r) s h =
      let others = IsLoop-walk_forest beside keep levels k rest l.2 a in
      elim (Bool-cases (keep i)) [
        | inl kept ↦ rw kept (
            visited r k i (select keep (roots beside)) levels below beside
              (walk_forest is_enabled visit keep beside (suc (length levels))) rest
              (visit i (suc (length levels)) s) l.0 (omega arith) a (λ u. others r u (omega arith))
              (λ kept_below u.
                IsLoop-walk_forest below kept_below (select keep (roots beside) ∷ levels)
                  (num_rounds beside + k) _ l.1 others r u (omega arith)))
        | inr left ↦ rw left (others (suc r) s (omega arith))
      ]

  IsLoop-pure : IsLoop 1 [] (pure tt)
  unfolding walk_stack
  IsLoop-pure zero s h = absurd (omega arith)
  IsLoop-pure (suc r) s h = refl

  -- behind the visit of the start node
  started :
      (i : ℕ) (below : Forest) (rounds : ℕ) (o : Result Signal × S)
      → Linked p (branch i below no_trees)
      → 2 * num_nodes below + 2 ≤ rounds
      → and_then o.0 (after_start visit get_children rounds i) o.1
        ≡ unless_stopped
            (λ (s : S).
              and_then o.0
                (after_signal is_enabled visit
                  (λ e. walk_forest is_enabled visit e below 1)
                  (pure false))
                o.1)
            (pure tt)
            o.1
  unfolding pure ◌>>=◌ if◌then◌else◌
  started i below rounds (raised e, u) l h = refl
  started i below rounds (ok ct_stop_all, u) l h = refl
  started i below rounds (ok ct_stop_siblings, u) l h = refl
  started i below rounds (ok ct_skip_children, u) l h = refl
  started i below rounds (ok ct_continue, u) l h =
      ap (λ cs. loop rounds (select (is_enabled u) cs ∷ []) u) l.0
      ∙ IsLoop-walk_forest below (is_enabled u) [] 1 (pure tt) l.1 IsLoop-pure rounds u
          (omega (arith, num_rounds_lem below))
      ∙ sym (
          stopped_assoc (walk_forest is_enabled visit (is_enabled u) below 1 u) (pure false)
            (pure tt))

  -- The walk from the root `i` of a finite tree, given two rounds for each node below the root and
  -- one more, visits what the recursive depth-first traversal visits, in the same order and at the
  -- same levels, with the same effects on the engine, and raises only what a visit raises.
  pub walk-walk_forest :
      (i : ℕ) (below : Forest) (rounds : ℕ) (s : S)
      → Linked p (branch i below no_trees)
      → 2 * num_nodes below + 2 ≤ rounds
      → walk visit get_children rounds i s
        ≡ unless_stopped
            (walk_forest is_enabled visit (λ _. true) (branch i below no_trees) 0)
            (pure tt)
            s
  unfolding walk walk_forest pure ◌>>=◌ if◌then◌else◌
  walk-walk_forest i below rounds s l h = started i below rounds (visit i 0 s) l h
