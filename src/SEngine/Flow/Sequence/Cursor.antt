-- ===== src/SEngine/Flow/Sequence/Cursor.antt =====
-- The cursor of `se_sequence`: how far it moves in a tick, and what it says of the code returned.
use robot_person.Base.{
  ℕ, suc, ◌+◌, ◌≡◌, ◌≢◌, ◌≤◌, ◌↔◌, refl, sym, String, false, Option, List, [], ◌∷◌, All, length,
  drop, length-drop, Bool-cases, inl, inr, if◌then◌else◌, str_eq, arith,
}
use robot_person.SEngine.Codes.{
  Code, event_init, event_terminate, se_pipeline_disable, is_application, is_function,
}
use robot_person.SEngine.State.{
  State, EventData, Action, ok, pure, get_cell, modify_cell, >>=-eq-ok, ◌>>=◌, ◌>>◌,
}
use robot_person.SEngine.Handle.{Handle, is_m_call}
use robot_person.SEngine.Dispatch.{invoke_any}
use robot_person.SEngine.Lifecycle.{terminate_child}
use robot_person.SEngine.Flow.Sequence.{
  set_state, is_finished, paused_code, sequence_loop, se_sequence,
}
use robot_person.SEngine.Keeps.{Keeps}
use robot_person.SEngine.Keeps.Control.{drop-IsKept}
use robot_person.SEngine.Keeps.Runtime.{IsKept, invoke_any-Keeps}

-- A paused sequence does not say that it is done.
paused_code-ne-disable : (r : Code) → paused_code r ≢ se_pipeline_disable
unfolding paused_code is_application is_function if◌then◌else◌
paused_code-ne-disable r = ground arith

-- what a pass over the children from `k` on, `n` of them, leaves in the cursor
abbrev pub Moved : ℕ → ℕ → ℕ → Code → Type 0
Moved k n cursor c =
    (k ≤ cursor) × (cursor ≤ k + n) × ((c ≡ se_pipeline_disable) ↔ (cursor ≡ k + n))

module _ (i hi : ℕ) (limit : Option ℕ) (e : String) (d : EventData) where
  -- the children run behind the node `i` and leave it alone
  kept-cursor :
      {A : Type 0} (m : Action A) (s t : State) {a : A}
      → Keeps (suc i) hi limit m
      → m s ≡ (ok a, t)
      → t.cells i ≡ s.cells i
  kept-cursor m s t k p = cc ((k.at s).frame i (inl (omega arith)), p)

  set_state-cursor :
      (n : ℕ) (s t : State) {x : Unit {0}} → set_state i n s ≡ (ok x, t) → (t.cells i).state ≡ n
  unfolding set_state modify_cell
  set_state-cursor n s t p = ground arith

  Moved-suc : (k n cursor : ℕ) (c : Code) → Moved (k + 1) n cursor c → Moved k (suc n) cursor c
  Moved-suc k n cursor c (low, high, done) =
      (omega arith, omega arith, (λ w. omega (arith, done.0 w), λ w. done.1 (omega arith)))

  -- the pass stops at the child `k`
  Moved-paused :
      (k n : ℕ) (r : Code) (s : State)
      → (s.cells i).state ≡ k
      → Moved k (suc n) (s.cells i).state (paused_code r)
  Moved-paused k n r s here = (
    omega arith,
    omega arith,
    (λ w. absurd (paused_code-ne-disable r w), λ w. absurd (omega arith)),
  )

  -- the step to the next child, given what the pass from there on does
  advance-Moved :
      (hs : List Handle) (k : ℕ) (s t : State) (c : Code)
      → ((u : State)
          → (u.cells i).state ≡ k + 1
          → sequence_loop i (k + 1) hs e d u ≡ (ok c, t)
          → Moved (k + 1) (length hs) (t.cells i).state c)
      → (set_state i (k + 1) >> sequence_loop i (k + 1) hs e d) s ≡ (ok c, t)
      → Moved k (suc (length hs)) (t.cells i).state c
  advance-Moved hs k s t c ih p =
      let (_, u, p1, q) = >>=-eq-ok (set_state i (k + 1)) _ s t p in
      Moved-suc k (length hs) (t.cells i).state c (ih u (set_state-cursor (k + 1) s u p1) q)

  pure-eq : (c r : Code) (s t : State) → pure r s ≡ (ok c, t) → (r ≡ c) × (s ≡ t)
  unfolding pure
  pure-eq c r s t p = (cc, cc)

  sequence_loop-Moved :
      (hs : List Handle) (k : ℕ) (s t : State) (c : Code)
      → All (IsKept (suc i) hi limit) hs
      → (s.cells i).state ≡ k
      → sequence_loop i k hs e d s ≡ (ok c, t)
      → Moved k (length hs) (t.cells i).state c
  unfolding sequence_loop if◌then◌else◌
  sequence_loop-Moved [] k s t c ks here p =
      let (e1, e2) = pure-eq c _ s t p in
      let at_k : (t.cells i).state ≡ k = cc in
      (omega arith, omega arith, (λ w. omega arith, λ w. sym e1))
  sequence_loop-Moved (h ∷ hs) k s t c ks here p =
      let (r, u, p1, q) = >>=-eq-ok (invoke_any h e d) _ s t p in
      let same = kept-cursor _ s u (invoke_any-Keeps (suc i) hi limit h ks.0 e d) p1 in
      let at_k : (u.cells i).state ≡ k = cc in
      let ih = λ (v : State). sequence_loop-Moved hs (k + 1) v t c ks.1 in
      elim (Bool-cases (is_m_call h.call_type)) [
        | inl main ↦ elim (Bool-cases (is_finished r)) [
          | inl fin ↦
              let q' = rw (main, fin) at q in
              let (_, v, p2, rest) = >>=-eq-ok (terminate_child h) _ u t q' in
              advance-Moved hs k v t c ih rest
          | inr go ↦
              let (e1, e2) = pure-eq c _ u t (rw (main, go) at q) in
              rw (← e1, ← e2) (Moved-paused k (length hs) r u at_k)
        ]
        | inr shot ↦ advance-Moved hs k u t c ih (rw shot at q)
      ]

-- On an event other than INIT and TERMINATE, with the cursor at most behind the last child, a
-- `se_sequence` that returns has moved the cursor only forward and at most behind the last child, and
-- returns SE_PIPELINE_DISABLE exactly when the cursor stands behind the last child. The children may
-- be any nodes that keep to the rules of `Evolves` over nodes behind the sequence's own.
pub se_sequence-cursor :
    (i hi : ℕ) (limit : Option ℕ) (hs : List Handle) (e : String) (d : EventData) (s t : State)
    (c : Code)
    → str_eq e event_init ≡ false
    → str_eq e event_terminate ≡ false
    → All (IsKept (suc i) hi limit) hs
    → (s.cells i).state ≤ length hs
    → se_sequence i hs e d s ≡ (ok c, t)
    → ((s.cells i).state ≤ (t.cells i).state)
      × ((t.cells i).state ≤ length hs)
      × ((c ≡ se_pipeline_disable) ↔ ((t.cells i).state ≡ length hs))
unfolding se_sequence if◌then◌else◌ get_cell ◌>>=◌
se_sequence-cursor i hi limit hs e d s t c not_init not_term ks fits p =
    let n = (s.cells i).state in
    let run = rw (not_init, not_term) at p in
    let (low, high, done) =
      sequence_loop-Moved i hi limit e d (drop n hs) n s t c (drop-IsKept (suc i) hi limit n hs ks)
        refl run in
    let len = length-drop n hs in
    (low, omega arith, (λ w. omega (arith, done.0 w), λ w. done.1 (omega arith)))
