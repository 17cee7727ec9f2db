-- ===== src/ChainTree/Builtins/Sequence/Bounds.antt =====
-- The index of the active child stays within the children.
use robot_person.Base.{
  ℕ, zero, suc, ◌+◌, ◌≡◌, ◌<◌, refl, String, Bool, false, Option, none, some, List, [], ◌∷◌, length,
  get_elem?, str_eq, arith, ap,
}
use mathlib.Core.Path.{subst⁻¹}
use robot_person.ChainTree.Codes.{cfl_timer_event}
use robot_person.ChainTree.Values.{Event}
use robot_person.ChainTree.State.{
  World, Kb, Control, Outcome, SequenceState, ok, raise, modify_control, get_data, update,
  update_self, update-cases_eq, ◌>>=◌,
}
use robot_person.ChainTree.Node.{Program}
use robot_person.ChainTree.Engine.{terminate_node_tree, enable_node}
use robot_person.ChainTree.Builtins.{clear_all}
use robot_person.ChainTree.Builtins.Sequence.{
  on_present, write_sequence, modify_sequence, fire_sequence_finalize, finish_sequence, advance,
  judge, poll, sequence_tick, common_main, mark_parent, cfl_mark_sequence, new_sequence_state,
  start_sequence, cfl_sequence_init,
}
use robot_person.ChainTree.Invariants.{
  Keeps, Runs-pure, Runs-if, Keeps->>=, Keeps-gets, Keeps-get_control, IsStable, run_rules,
}
use robot_person.ChainTree.Invariants.Teardown.{
  OutlivesTeardown, IsStable-OutlivesTeardown, Keeps-enable_node, Keeps-terminate_node_tree,
  Keeps-ask, Keeps-fire, Keeps-clear_all,
}

-- a node without a sequence state, or with an index below `n`
abbrev pub IndexBelow : ℕ → Option SequenceState → Type 0
IndexBelow n none = Unit
IndexBelow n (some q) = q.current_index < n

-- the sequence state of the node `i` points at one of its children
abbrev pub InRange : Program → ℕ → World → Type 0
InRange p i s = IndexBelow (length (p.nodes i).children) (s.control i).sequence_state

IndexBelow-on_present :
    (n : ℕ) (f : SequenceState → SequenceState) (o : Option SequenceState)
    → ((q : SequenceState) → q.current_index < n → (f q).current_index < n)
    → IndexBelow n o
    → IndexBelow n (on_present f o)
IndexBelow-on_present n f none k h = tt
IndexBelow-on_present n f (some q) k h = k q h

get_elem?-lt : {A : Type 0} (xs : List A) (k : ℕ) {x : A} → get_elem? xs k ≡ some x → k < length xs
get_elem?-lt [] k h = cc
get_elem?-lt (x ∷ xs) zero h = omega arith
get_elem?-lt (x ∷ xs) (suc k) h = omega (arith, get_elem?-lt xs k h)

module _ (p : Program) (i : ℕ) (stable : IsStable p (InRange p i)) where
  torn : OutlivesTeardown p (InRange p i)
  torn = IsStable-OutlivesTeardown p (InRange p i) stable

  abbrev KeepsIndex : (SequenceState → SequenceState) → Type 0
  KeepsIndex f =
      (q : SequenceState)
      → q.current_index < length (p.nodes i).children
      → (f q).current_index < length (p.nodes i).children

  -- also of another node, which may be this one
  Keeps-modify_sequence :
      (j : ℕ) (f : SequenceState → SequenceState)
      → KeepsIndex f
      → Keeps (InRange p i) (modify_sequence j f)
  unfolding modify_sequence modify_control
  Keeps-modify_sequence j f k = record {
    at = λ s h. (
      update-cases_eq s.control j (write_sequence f (s.control j))
          (λ c. IndexBelow (length (p.nodes i).children) c.sequence_state) i
          (λ same.
            IndexBelow-on_present (length (p.nodes i).children) f (s.control j).sequence_state k (
              subst⁻¹ (λ m. IndexBelow (length (p.nodes i).children) (s.control m).sequence_state)
                same h))
          h,
      tt,
    );
  }

  Keeps-finish_sequence :
      (kb : Kb) (state : SequenceState) (status : Bool)
      → Keeps (InRange p i) (finish_sequence p kb i state status)
  unfolding finish_sequence fire_sequence_finalize
  Keeps-finish_sequence kb state status =
      Keeps->>= (InRange p i) (modify_sequence i _) _ (Keeps-modify_sequence i _ (λ q h. h))
        (λ _. search (run_rules, Keeps-fire p (InRange p i) stable) depth 6)

  Keeps-advance :
      (kb : Kb) (state : SequenceState) (status : Bool) (child : ℕ) (next : Option ℕ)
      → get_elem? (p.nodes i).children (state.current_index + 1) ≡ next
      → Keeps (InRange p i) (advance p kb i state status child next)
  unfolding advance
  Keeps-advance kb state status child none e = Keeps-finish_sequence kb state status
  Keeps-advance kb state status child (some next) e =
      let within = get_elem?-lt (p.nodes i).children (state.current_index + 1) e in
      Keeps->>= (InRange p i) (terminate_node_tree p kb child) _
        (Keeps-terminate_node_tree p (InRange p i) torn kb child)
        (λ _.
          Keeps->>= (InRange p i) (modify_sequence i _) _
            (Keeps-modify_sequence i _ (λ q h. within))
            (λ _. search (run_rules, Keeps-enable_node (InRange p i) stable.flags) depth 6))

  Keeps-judge :
      (stop_on : Bool) (kb : Kb) (state : SequenceState) (child : ℕ) (next : Option ℕ)
      (outcome : Option Outcome)
      → get_elem? (p.nodes i).children (state.current_index + 1) ≡ next
      → Keeps (InRange p i) (judge p stop_on kb i state child next outcome)
  unfolding judge
  Keeps-judge stop_on kb state child next none e = search run_rules
  Keeps-judge stop_on kb state child next (some outcome) e =
      Runs-if (InRange p i) _ _ _ (Keeps-finish_sequence kb state outcome.status)
        (Keeps-advance kb state outcome.status child next e)

  Keeps-poll :
      (stop_on : Bool) (kb : Kb) (state : SequenceState) (child next : Option ℕ)
      → get_elem? (p.nodes i).children (state.current_index + 1) ≡ next
      → Keeps (InRange p i) (poll p stop_on kb i state child next)
  unfolding poll
  Keeps-poll stop_on kb state none next e = search run_rules
  Keeps-poll stop_on kb state (some child) next e =
      Keeps->>= (InRange p i) _ _ (Keeps-gets (InRange p i) _) (λ running.
        Runs-if (InRange p i) running _ _ (Runs-pure (InRange p i) _ tt)
          (Keeps-judge stop_on kb state child next _ e))

  Keeps-sequence_tick :
      (stop_on : Bool) (kb : Kb) (children : List ℕ) (state : Option SequenceState)
      → (p.nodes i).children ≡ children
      → Keeps (InRange p i) (sequence_tick p stop_on kb i children state)
  unfolding sequence_tick
  Keeps-sequence_tick stop_on kb children none e = search run_rules
  Keeps-sequence_tick stop_on kb [] (some state) e = search run_rules
  Keeps-sequence_tick stop_on kb (c ∷ cs) (some state) e =
      Keeps-poll stop_on kb state (get_elem? (c ∷ cs) state.current_index) _
        (ap (λ l. get_elem? l (state.current_index + 1)) e)

  -- a tick of a sequence
  Keeps-common_main :
      (stop_on : Bool) (kb : Kb) (name : Option String) (event : Event)
      → Keeps (InRange p i) (common_main p stop_on kb name i event)
  unfolding common_main
  Keeps-common_main stop_on kb name event =
      Keeps->>= (InRange p i) _ _ (Keeps-ask p (InRange p i) stable.booleans false name kb i event)
        (λ early. Runs-if (InRange p i) early _ _ (Runs-pure (InRange p i) _ tt) (
          Runs-if (InRange p i) (str_eq event.event_id cfl_timer_event) _ _
            (Keeps->>= (InRange p i) _ _ (Keeps-get_control (InRange p i) i)
              (λ c. Keeps-sequence_tick stop_on kb (p.nodes i).children c.sequence_state refl))
            (Runs-pure (InRange p i) _ tt)))

  Keeps-mark_parent :
      (parent : Option ℕ) (outcome : Outcome) → Keeps (InRange p i) (mark_parent parent outcome)
  unfolding mark_parent
  Keeps-mark_parent none outcome = search run_rules
  Keeps-mark_parent (some parent) outcome = Keeps-modify_sequence parent _ (λ q h. h)

  Keeps-cfl_mark_sequence : (kb : Kb) (j : ℕ) → Keeps (InRange p i) (cfl_mark_sequence kb j)
  unfolding cfl_mark_sequence
  Keeps-cfl_mark_sequence kb j = search (run_rules, Keeps-mark_parent) depth 6

  start_sequence-InRange :
      (children : List ℕ) (s : World)
      → (p.nodes i).children ≡ children
      → (start_sequence p children i s).0 ≡ ok tt
      → InRange p i (start_sequence p children i s).1
  unfolding start_sequence get_data modify_control raise ◌>>=◌
  start_sequence-InRange [] s e h = cc
  start_sequence-InRange (c ∷ cs) s e h =
      let q = new_sequence_state p (c ∷ cs) (s.node_data i).finalize_fn in
      let k : Control = record (s.control i) { sequence_state = some q } in
      let within : 0 < length (p.nodes i).children = subst⁻¹ (λ l. 0 < length l) e (omega arith) in
      ((Keeps->>= (InRange p i) (clear_all (c ∷ cs)) (λ _. enable_node c)
          (Keeps-clear_all (InRange p i) stable.flags (c ∷ cs))
          (λ _. Keeps-enable_node (InRange p i) stable.flags c)).at
        (record s { control = update s.control i k })
        (subst⁻¹ (λ (d : Control). IndexBelow (length (p.nodes i).children) d.sequence_state)
          (update_self s.control i k) within)).0

-- If the functions of the program leave the index of a sequence node within its children, then so
-- do the node's ticks, whether they return or raise, and every CFL_MARK_SEQUENCE one-shot; and when
-- the node has been initialized the index is within its children.
pub sequence-InRange :
    (p : Program) (i : ℕ) (stop_on : Bool) (kb : Kb) (name : Option String) (event : Event) (j : ℕ)
    (s : World)
    → IsStable p (InRange p i)
    → (InRange p i s → InRange p i (common_main p stop_on kb name i event s).1)
      × (InRange p i s → InRange p i (cfl_mark_sequence kb j s).1)
      × ((cfl_sequence_init p kb i s).0 ≡ ok tt → InRange p i (cfl_sequence_init p kb i s).1)
unfolding cfl_sequence_init
sequence-InRange p i stop_on kb name event j s stable = (
  λ h. ((Keeps-common_main p i stable stop_on kb name event).at s h).0,
  λ h. ((Keeps-cfl_mark_sequence p i stable kb j).at s h).0,
  start_sequence-InRange p i stable (p.nodes i).children s refl,
)
