-- ===== src/SEngine/Lifecycle/Reset.antt =====
-- What the children of a node are after `children_terminate_all`.
use robot_person.Base.{
  ℕ, ◌≡◌, refl, true, false, List, [], ◌∷◌, All, ◌==◌, Bool-cases, inl, inr, arith,
}
use robot_person.SEngine.State.{State, Cell, ok, no_data, modify_cell, >>=-eq-ok, ◌>>=◌}
use robot_person.SEngine.Handle.{Handle}
use robot_person.SEngine.Lifecycle.{
  reset_node_state, children_reset_all, terminate_reversed, children_terminate_all,
}

-- ready for a fresh activation
pub record IsReset (c : Cell) : Type 0 where
  pub active : c.active ≡ true
  pub uninitialized : c.initialized ≡ false
  pub state_zero : c.state ≡ 0
  pub no_user_data : c.user_data ≡ no_data

reset_node_state-keeps :
    (i j : ℕ) (s : State) → IsReset (s.cells j) → IsReset ((reset_node_state i s).1.cells j)
unfolding reset_node_state modify_cell
reset_node_state-keeps i j s h = elim (Bool-cases (i == j)) [
  | inl same ↦ ground arith
  | inr other ↦ ground arith
]

reset_node_state-IsReset : (i : ℕ) (s : State) → IsReset ((reset_node_state i s).1.cells i)
unfolding reset_node_state modify_cell
reset_node_state-IsReset i s = ground arith

-- the state behind `children_reset_all`, which does not raise
abbrev after_reset : List Handle → State → State
after_reset [] s = s
after_reset (h ∷ hs) s = after_reset hs (reset_node_state h.id s).1

children_reset_all-returns :
    (hs : List Handle) (s : State) → children_reset_all hs s ≡ (ok tt, after_reset hs s)
unfolding children_reset_all reset_node_state ◌>>=◌
children_reset_all-returns [] s = refl
children_reset_all-returns (h ∷ hs) s = children_reset_all-returns hs _

after_reset-keeps :
    (hs : List Handle) (j : ℕ) (s : State)
    → IsReset (s.cells j)
    → IsReset ((after_reset hs s).cells j)
after_reset-keeps [] j s r = r
after_reset-keeps (h ∷ hs) j s r =
    after_reset-keeps hs j (reset_node_state h.id s).1 (reset_node_state-keeps h.id j s r)

after_reset-IsReset :
    (hs : List Handle) (s : State) → All (λ h. IsReset ((after_reset hs s).cells h.id)) hs
after_reset-IsReset [] s = tt
after_reset-IsReset (h ∷ hs) s = (
  after_reset-keeps hs h.id _ (reset_node_state-IsReset h.id s),
  after_reset-IsReset hs (reset_node_state h.id s).1,
)

-- Whatever the functions of the children do, once `children_terminate_all` has returned every
-- child is active and uninitialized, with state 0 and no user_data.
pub children_terminate_all-IsReset :
    (hs : List Handle) (s t : State)
    → children_terminate_all hs s ≡ (ok tt, t)
    → All (λ h. IsReset (t.cells h.id)) hs
unfolding children_terminate_all
children_terminate_all-IsReset hs s t p =
    let (_, u, _, last) = >>=-eq-ok (terminate_reversed hs) _ s t p in
    let e : after_reset hs u ≡ t = cc (children_reset_all-returns hs u) in
    rw e at (after_reset-IsReset hs u)
