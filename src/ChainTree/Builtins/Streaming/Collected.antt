-- ===== src/ChainTree/Builtins/Streaming/Collected.antt =====
-- What a collecting node sends on: a packet of each of its ports.
use robot_person.Base.{
  ℕ, ◌≡◌, ◌⊎◌, inl, inr, refl, sym, ap, ◌∙◌, String, Bool, true, false, Option, none, some, List,
  [], ◌∷◌, ◌++◌, All, if◌then◌else◌,
}
use mathlib.Core.Path.{subst}
use robot_person.ChainTree.Codes.{CflCode, cfl_continue, cfl_event_type_streaming_data}
use robot_person.ChainTree.Values.{dict, Fields, nil, get_field, Event, Port}
use robot_person.ChainTree.State.{
  World, Kb, key_error, NodeData, Result, ok, raised-ne-ok, ok_inj, update_self, Action, pure,
  raise, modify, get_data, modify_data, ◌>>=◌, ◌>>◌, >>=-eq-ok,
}
use robot_person.ChainTree.EventQueue.{make_event, append_event, enqueue, priority_normal}
use robot_person.ChainTree.Node.{Program}
use robot_person.ChainTree.Invariants.{Runs-if, Runs-pure, Keeps, Keeps->>=, run_rules}
use robot_person.ChainTree.Invariants.Teardown.{Keeps-fields_of, Keeps-dict_of}
use robot_person.ChainTree.Builtins.{ask, dict_of}
use robot_person.ChainTree.Builtins.Streaming.{
  schema_matches, event_matches, find_port, is_there, all_pending, with_schema, store_packet,
  emit_combined, or_parent, emit_if_complete, collect, cfl_streaming_collect_packet,
}

-- a port that names an event id, with a packet stored under it
abbrev pub IsFilled : Fields → Port → Type 0
IsFilled packets port =
    (id : String) × (port.event_id ≡ some id) × (is_there (get_field id packets) ≡ true)

-- the combined packet of a collecting node
abbrev pub combined : Program → ℕ → NodeData → String → Fields → Event
combined p i d id packets = record {
  target = or_parent d.target_node (p.nodes i).parent;
  event_type = cfl_event_type_streaming_data;
  event_id = id;
  payload = dict (with_schema d.outport.schema packets);
  priority = priority_normal;
}

-- the part of the state that the search for a port leaves alone
module _ (P : World → Type 0) where
  Keeps-schema_matches :
      (schema : Option String) (event : Event) → Keeps P (schema_matches schema event)
  unfolding schema_matches
  Keeps-schema_matches none event = search run_rules
  Keeps-schema_matches (some schema) event = search (run_rules, Keeps-fields_of) depth 12

  Keeps-event_matches : (event : Event) (port : Port) → Keeps P (event_matches event port)
  unfolding event_matches
  Keeps-event_matches event port = search (run_rules, Keeps-schema_matches) depth 12

  Keeps-find_port : (event : Event) (ports : List Port) → Keeps P (find_port event ports)
  unfolding find_port
  Keeps-find_port event [] = search run_rules
  Keeps-find_port event (port ∷ ports) =
      Keeps->>= P (event_matches event port) _ (Keeps-event_matches event port)
        (λ found. Runs-if P found _ _ (Runs-pure P _ tt) (Keeps-find_port event ports))

value_of : {A : Type 0} {o q : Result A × World} → o ≡ q → o.0 ≡ q.0
value_of e = ap (λ o. o.0) e

state_of : {A : Type 0} {o q : Result A × World} → o ≡ q → o.1 ≡ q.1
state_of e = ap (λ o. o.1) e

abbrev Answered : Fields → World → World → Bool → List Port → Type 0
Answered packets s t b ports = (t ≡ s) × (b ≡ true → All (IsFilled packets) ports)

module _ (port : Port) (ports : List Port) (packets : Fields) (s t : World) (b : Bool) where
  all_pending-tested :
      (id : String) (there : Bool)
      → port.event_id ≡ some id
      → is_there (get_field id packets) ≡ there
      → (if there then all_pending ports packets else pure false) s ≡ (ok b, t)
      → (all_pending ports packets s ≡ (ok b, t) → Answered packets s t b ports)
      → Answered packets s t b (port ∷ ports)
  unfolding if◌then◌else◌ pure
  all_pending-tested id true named found e others =
      ((others e).0, λ h. ((id, named, found), (others e).1 h))
  all_pending-tested id false named found e others =
      let no : false ≡ b = ok_inj (value_of e) in (sym (state_of e), λ h. absurd cc)

  all_pending-first :
      (o : Option String)
      → port.event_id ≡ o
      → (elim o as (λ _. Action Bool) [
        | none ↦ raise key_error
        | some id ↦
            if is_there (get_field id packets) then all_pending ports packets else pure false
      ])
          s
        ≡ (ok b, t)
      → (all_pending ports packets s ≡ (ok b, t) → Answered packets s t b ports)
      → Answered packets s t b (port ∷ ports)
  unfolding raise
  all_pending-first none named e others = absurd (raised-ne-ok (value_of e))
  all_pending-first (some id) named e others = all_pending-tested id _ named refl e others

-- the test looks only at the packets, and says that each port has one
all_pending-All :
    (ports : List Port) (packets : Fields) (s t : World) (b : Bool)
    → all_pending ports packets s ≡ (ok b, t)
    → Answered packets s t b ports
unfolding all_pending pure
all_pending-All [] packets s t b e = (sym (state_of e), λ _. tt)
all_pending-All (port ∷ ports) packets s t b e =
    all_pending-first port ports packets s t b port.event_id refl e
      (all_pending-All ports packets s t b)

module _ (p : Program) (i : ℕ) (inports : List Port) where
  -- one combined packet more, which holds a packet of each port, and no packet kept
  abbrev pub IsSent : World → World → Type 0
  IsSent s t =
      (id : String) × (packets : Fields) × ((t.node_data i).outport.event_id ≡ some id)
      × All (IsFilled packets) inports
      × (t.normal ≡ s.normal ++ combined p i (t.node_data i) id packets ∷ [])
      × ((t.node_data i).pending ≡ nil)

  abbrev pub Collects : World → World → Type 0
  Collects s t = (t.high ≡ s.high) × ((t.normal ≡ s.normal) ⊎ IsSent s t)

  emitted :
      (o : Option String) (packets : Fields) (s t : World) (d : NodeData)
      → d.outport.event_id ≡ o
      → s.node_data i ≡ d
      → All (IsFilled packets) inports
      → (do
        emit_combined
            (or_parent d.target_node (p.nodes i).parent)
            o
            (dict (with_schema d.outport.schema packets))
        modify_data i (λ e. record e { pending = nil }))
          s
        ≡ (ok tt, t)
      → Collects s t
  unfolding emit_combined raise enqueue append_event make_event modify modify_data ◌>>=◌
  emitted none packets s t d named held filled e = absurd (raised-ne-ok (value_of e))
  emitted (some id) packets s t d named held filled e =
      let written = update_self s.node_data i (record (s.node_data i) { pending = nil }) in
      let queue = λ (x : NodeData). s.normal ++ combined p i x id packets ∷ [] in
      subst (Collects s) (state_of e) (
        refl,
        inr (
          id,
          packets,
          ap (λ (x : NodeData). x.outport.event_id) written
              ∙ ap (λ (x : NodeData). x.outport.event_id) held
              ∙ named,
          filled,
          sym (ap queue written ∙ ap queue held),
          ap (λ (x : NodeData). x.pending) written,
        ),
      )

  completed :
      (complete : Bool) (s t : World)
      → (complete ≡ true → All (IsFilled (s.node_data i).pending) inports)
      → (if complete
            then (do
              emit_combined
                  (or_parent (s.node_data i).target_node (p.nodes i).parent)
                  (s.node_data i).outport.event_id
                  (dict (with_schema (s.node_data i).outport.schema (s.node_data i).pending))
              modify_data i (λ e. record e { pending = nil }))
            else pure tt)
          s
        ≡ (ok tt, t)
      → Collects s t
  unfolding if◌then◌else◌ pure
  completed true s t filled e =
      emitted _ (s.node_data i).pending s t (s.node_data i) refl refl (filled refl) e
  completed false s t filled e = subst (Collects s) (state_of e) (refl, inl refl)

  emit_if_complete-Collects :
      (s t : World) → emit_if_complete p inports i s ≡ (ok tt, t) → Collects s t
  unfolding emit_if_complete get_data ◌>>=◌
  emit_if_complete-Collects s t e =
      let d = s.node_data i in
      let after = λ (complete : Bool).
        if complete
        then (do
          emit_combined (or_parent d.target_node (p.nodes i).parent) d.outport.event_id
              (dict (with_schema d.outport.schema d.pending))
          modify_data i (λ e. record e { pending = nil }))
        else pure tt in
      let (complete, u, test, behind) = >>=-eq-ok (all_pending inports d.pending) after s t e in
      let (same, filled) = all_pending-All inports d.pending s u complete test in
      completed complete s t filled (subst (λ w. after complete w ≡ (ok tt, t)) same behind)

  abbrev SameQueues : World → World → Type 0
  SameQueues s t = (t.high ≡ s.high) × (t.normal ≡ s.normal)

  Keeps-store_packet :
      (s : World) (id : Option String) (event : Event)
      → Keeps (SameQueues s) (store_packet i id event)
  unfolding store_packet modify_data
  Keeps-store_packet s none event = search run_rules
  Keeps-store_packet s (some id) event =
      Keeps->>= (SameQueues s) (dict_of event.payload) _
        (Keeps-dict_of (SameQueues s) event.payload) (λ packet. record { at = λ w h. (h, tt) })

  from_queues : (s v t : World) → SameQueues s v → Collects v t → Collects s t
  from_queues s v t (h, n) (high, inl normal) = (high ∙ h, inl (normal ∙ n))
  from_queues s v t (h, n) (high, inr (id, packets, named, filled, normal, empty)) = (
    high ∙ h,
    inr (
      id,
      packets,
      named,
      filled,
      normal ∙ ap (λ l. l ++ combined p i (t.node_data i) id packets ∷ []) n,
      empty,
    ),
  )

  collect-Collects :
      (matched : Option Port) (kb : Kb) (event : Event) (s t : World) (code : CflCode)
      → collect p inports matched none kb i event s ≡ (ok code, t)
      → (code ≡ cfl_continue) × Collects s t
  unfolding collect ask pure ◌>>=◌ if◌then◌else◌
  collect-Collects none kb event s t code e =
      (sym (ok_inj (value_of e)), subst (Collects s) (state_of e) (refl, inl refl))
  collect-Collects (some port) kb event s t code e =
      let (_, v, stored, behind) = >>=-eq-ok (store_packet i port.event_id event) _ s t e in
      let queues =
        subst (SameQueues s) (state_of stored)
          ((Keeps-store_packet s port.event_id event).at s (refl, refl)).0 in
      let (_, w, sent, last) =
        >>=-eq-ok (emit_if_complete p inports i) (λ _. pure cfl_continue) v t behind in
      (
        sym (ok_inj (value_of last)),
        from_queues s v t queues
            (subst (Collects v) (state_of last) (emit_if_complete-Collects v w sent)),
      )

-- A collecting node without a boolean function that returns, returns CFL_CONTINUE and leaves the
-- high priority queue as it was. Either it leaves the normal queue too, or it appends to it one
-- event for its outport, whose payload is made of packets with one under the event id of each
-- inport, and keeps no packet.
pub cfl_streaming_collect_packet-Collects :
    (p : Program) (kb : Kb) (i : ℕ) (event : Event) (s t : World) (code : CflCode)
    → cfl_streaming_collect_packet p kb none i event s ≡ (ok code, t)
    → (code ≡ cfl_continue) × Collects p i (s.node_data i).inports s t
unfolding cfl_streaming_collect_packet get_data ◌>>=◌
cfl_streaming_collect_packet-Collects p kb i event s t code e =
    let inports = (s.node_data i).inports in
    let (matched, u, found, behind) = >>=-eq-ok (find_port event inports) _ s t e in
    let same : u ≡ s =
      sym (state_of found) ∙ ((Keeps-find_port (λ w. w ≡ s) event inports).at s refl).0 in
    collect-Collects p i inports matched kb event s t code
      (subst (λ w. collect p inports matched none kb i event w ≡ (ok code, t)) same behind)
