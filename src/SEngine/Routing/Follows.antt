-- ===== src/SEngine/Routing/Follows.antt =====
-- The current state of `se_state_machine` follows the transition table.
use robot_person.Base.{
  ℕ, suc, ◌≡◌, refl, ◌∙◌, ap, inl, String, false, Option, none, some, List, All, str_eq,
  if◌then◌else◌, eq_iff, arith,
}
use robot_person.SEngine.Codes.{Code, event_init, event_terminate}
use robot_person.SEngine.State.{
  State, Cell, state_name, EventData, ok, pure, get_cell, modify_cell, ◌>>=◌, >>=-eq-ok,
}
use robot_person.SEngine.Handle.{Handle}
use robot_person.SEngine.Flow.Branch.{set_user_data}
use robot_person.SEngine.Routing.{
  Machine, next_state?, state_child, transition, take_transition, se_state_machine,
}
use robot_person.SEngine.Keeps.Runtime.{IsKept}
use robot_person.SEngine.Keeps.Selection.{run_state-Keeps}

-- where the table leads, or where it stays
abbrev pub state_after : Option String → String → String
state_after none current = current
state_after (some t) current = t

module _ (i hi : ℕ) (limit : Option ℕ) (m : Machine) (hs : List Handle) where
  take_transition-name :
      (n : String) (o : Option String) (s u : State) (now : Option String)
      → (s.cells i).user_data ≡ state_name n
      → take_transition m i hs (some n) o s ≡ (ok now, u)
      → (u.cells i).user_data ≡ state_name (state_after o n)
  unfolding take_transition pure set_user_data modify_cell
  take_transition-name n none s u now here p = let same : s ≡ u = cc in rw same at here
  take_transition-name n (some t) s u now here p =
      let (_, v, _, q) = >>=-eq-ok _ _ s u p in
      let (_, w, q1, r) = >>=-eq-ok (set_user_data i (state_name t)) _ v u q in written v w u q1 r
    where
      written :
          (v w u : State) {x : Unit {0}}
          → set_user_data i (state_name t) v ≡ (ok x, w)
          → pure (some t) w ≡ (ok now, u)
          → (u.cells i).user_data ≡ state_name t
      written v w u q1 r = ground arith

-- where the machine goes from a state on an event
abbrev pub goes_to : Machine → String → String → String
goes_to m n e = state_after (next_state? n e m.transitions) n

stays_or_goes : (t n : String) → state_after (if str_eq t n then none else some t) n ≡ t
unfolding if◌then◌else◌
stays_or_goes t n = ground (arith, eq_iff t n)

-- a transition to the current state itself makes no difference
state_after_self :
    (n : String) (o : Option String)
    → state_after (elim o [ none ↦ none | some t ↦ if str_eq t n then none else some t ]) n
      ≡ state_after o n
state_after_self n none = refl
state_after_self n (some t) = stays_or_goes t n

state_after-transition :
    (m : Machine) (n e : String) → state_after (transition m (some n) e) n ≡ goes_to m n e
state_after-transition m n e = state_after_self n (next_state? n e m.transitions)

-- On an event other than INIT and TERMINATE, a `se_state_machine` in the state `n` that returns is
-- in the state that the table gives for `n` and the event, and still in `n` if the table has no
-- entry for them. The children may be any nodes that keep to the rules of `Evolves` over nodes
-- behind the machine's own.
pub se_state_machine-goes_to :
    (i hi : ℕ) (limit : Option ℕ) (m : Machine) (hs : List Handle) (e : String) (d : EventData)
    (s t : State) (c : Code) (n : String)
    → str_eq e event_init ≡ false
    → str_eq e event_terminate ≡ false
    → All (IsKept (suc i) hi limit) hs
    → (s.cells i).user_data ≡ state_name n
    → se_state_machine m i hs e d s ≡ (ok c, t)
    → (t.cells i).user_data ≡ state_name (goes_to m n e)
unfolding se_state_machine get_cell ◌>>=◌
se_state_machine-goes_to i hi limit m hs e d s t c n ni nt ks here p =
    let run = rw (ni, nt) at p in
    let moved = rw here at run in
    let (now, u, p1, q) =
      >>=-eq-ok (take_transition m i hs (some n) (transition m (some n) e)) _ s t moved in
    let at_goal =
      take_transition-name i hi limit m hs n (transition m (some n) e) s u now here p1 in
    let kept = run_state-Keeps (suc i) hi limit hs ks (state_child m now) e d in
    let same : t.cells i ≡ u.cells i = cc ((kept.at u).frame i (inl (omega arith)), q) in
    ap (λ (x : Cell). x.user_data) same ∙ at_goal ∙ ap state_name (state_after-transition m n e)
