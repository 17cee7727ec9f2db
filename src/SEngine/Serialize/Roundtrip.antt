-- ===== src/SEngine/Serialize/Roundtrip.antt =====
-- What survives the way to the wire and back.
use robot_person.Base.{
  ◌≡◌, refl, ◌∙◌, ap, ◌⊎◌, inl, inr, true, false, none, Bool-cases, List, [], ◌∷◌, if◌then◌else◌,
}
use robot_person.SEngine.Values.{Value, truthy, value_eq}
use robot_person.SEngine.State.{Result, ok}
use robot_person.SEngine.Serialize.{
  Key, plain, parts, Param, atom, list, tuple, dict, callable, Params, no_params, param, Entries,
  no_entries, entry, Wire, wire_atom, wire_list, wire_dict, Wires, no_wires, wire, Fields,
  no_fields, field, is_marker, has_tuple_key, atoms, tagged_dict, pair, list_of_key,
  serialize_value, serialize_values, serialize_tagged, serialize_plain, hashable, iterated, key_eq,
  value_or, remove, put_first, deserialize_value, deserialize_values, deserialize_plain,
  deserialize_marked, deserialize_tagged, or_empty, or_empty_wire,
}

-- no entry has the key
abbrev pub NoKey : Key → Entries → Type 0
NoKey k no_entries = Unit
NoKey k (entry j p es) = (key_eq k j ≡ false) × NoKey k es

-- Params that the wire can hold: no tuples as values, no callables, and in a dict either only
-- tuples for keys, no two of them equal, or no tuple and not the marker.
abbrev mutual
  pub Transportable : Param → Type 0
  Transportable (atom v) = Unit
  Transportable (list ps) = AllTransportable ps
  Transportable (tuple ps) = ⊥
  Transportable (callable name) = ⊥
  Transportable (dict es) =
      ((has_tuple_key es ≡ true) × Tagged es) ⊎ ((has_tuple_key es ≡ false) × Plain es)

  pub AllTransportable : Params → Type 0
  AllTransportable no_params = Unit
  AllTransportable (param p ps) = Transportable p × AllTransportable ps

  pub Tagged : Entries → Type 0
  Tagged no_entries = Unit
  Tagged (entry (plain k) p es) = ⊥
  Tagged (entry (parts vs) p es) = NoKey (parts vs) es × (Transportable p × Tagged es)

  pub Plain : Entries → Type 0
  Plain no_entries = Unit
  Plain (entry (parts vs) p es) = ⊥
  Plain (entry (plain k) p es) = (is_marker k ≡ false) × (Transportable p × Plain es)

value_or-absent : (k : Key) (p : Param) (es : Entries) → NoKey k es → value_or k p es ≡ p
unfolding value_or if◌then◌else◌
value_or-absent k p no_entries n = refl
value_or-absent k p (entry j q es) n = rw n.0 (value_or-absent k p es n.1)

remove-absent : (k : Key) (es : Entries) → NoKey k es → remove k es ≡ es
unfolding remove if◌then◌else◌
remove-absent k no_entries n = refl
remove-absent k (entry j q es) n = rw n.0 (ap (entry j q) (remove-absent k es n.1))

put_first-absent :
    (k : Key) (p : Param) (es : Entries) → NoKey k es → put_first k p es ≡ entry k p es
unfolding put_first
put_first-absent k p es n = rw (value_or-absent k p es n, remove-absent k es n) refl

hashable-atoms : (vs : List Value) → hashable (atoms vs) ≡ ok vs
unfolding hashable atoms
hashable-atoms [] = refl
hashable-atoms (v ∷ vs) = rw (hashable-atoms vs) refl

deserialize_value-tagged :
    (ws : Wires) (es : Entries)
    → deserialize_tagged ws ≡ ok es
    → deserialize_value (tagged_dict ws) ≡ ok (dict es)
unfolding deserialize_value is_marker value_eq if◌then◌else◌
deserialize_value-tagged ws es p = rw p refl

marked-field :
    (k : Value) (w : Wire) (fs : Fields)
    → is_marker k ≡ false
    → deserialize_marked (field k w fs) ≡ deserialize_marked fs
unfolding deserialize_value if◌then◌else◌
marked-field k (wire_atom v) fs p = rw p refl
marked-field k (wire_list ws) fs p = rw p refl
marked-field k (wire_dict gs) fs p = rw p refl

-- a value and the wire that it becomes and comes back from
abbrev Back : {A B : Type 0} → (A → Result B) → (B → Result A) → A → Type 0
Back {A} {B} there back a = (b : B) × (there a ≡ ok b) × (back b ≡ ok a)

abbrev BackPlain : Entries → Type 0
BackPlain es =
    (fs : Fields) × (serialize_plain es ≡ ok fs)
    × (deserialize_plain fs ≡ ok es)
    × (deserialize_marked fs ≡ none)

mutual
  unfolding serialize_value deserialize_value if◌then◌else◌ list_of_key iterated

  pub value-Back : (p : Param) → Transportable p → Back serialize_value deserialize_value p
  value-Back (atom v) t = (wire_atom v, refl, refl)
  value-Back (list ps) t = let (ws, p, q) = values-Back ps t in (wire_list ws, rw p refl, rw q refl)
  value-Back (tuple ps) t = absurd t
  value-Back (callable name) t = absurd t
  value-Back (dict es) (inl (has, t)) =
      let (ws, p, q) = tuple_keys-Back es t in
      (tagged_dict ws, rw (has, p) refl, deserialize_value-tagged ws es q)
  value-Back (dict es) (inr (has, t)) =
      let (fs, p, q, m) = no_tuple_keys-Back es t in
      (wire_dict fs, rw (has, p) refl, rw (m, q) refl)

  values-Back : (ps : Params) → AllTransportable ps → Back serialize_values deserialize_values ps
  values-Back no_params t = (no_wires, refl, refl)
  values-Back (param p ps) t =
      let (w, p1, q1) = value-Back p t.0 in
      let (ws, p2, q2) = values-Back ps t.1 in (wire w ws, rw (p1, p2) refl, rw (q1, q2) refl)

  tuple_keys-Back : (es : Entries) → Tagged es → Back serialize_tagged deserialize_tagged es
  tuple_keys-Back no_entries t = (no_wires, refl, refl)
  tuple_keys-Back (entry (plain k) p es) t = absurd t
  tuple_keys-Back (entry (parts vs) p es) t =
      let (w, p1, q1) = value-Back p t.1.0 in
      let (ws, p2, q2) = tuple_keys-Back es t.1.1 in
      (
        wire (pair (wire_list (atoms vs)) w) ws,
        rw (p1, p2) refl,
        rw (q1, hashable-atoms vs, q2, put_first-absent (parts vs) p es t.0) refl,
      )

  no_tuple_keys-Back : (es : Entries) → Plain es → BackPlain es
  no_tuple_keys-Back no_entries t = (no_fields, refl, refl, refl)
  no_tuple_keys-Back (entry (parts vs) p es) t = absurd t
  no_tuple_keys-Back (entry (plain k) p es) t =
      let (w, p1, q1) = value-Back p t.1.0 in
      let (fs, p2, q2, m) = no_tuple_keys-Back es t.1.1 in
      (field k w fs, rw (p1, p2) refl, rw (q1, q2) refl, marked-field k w fs t.0 ∙ m)

-- `{}` in the place of params that are falsy keeps them fit for the wire
pub or_empty-Transportable : (p : Param) → Transportable p → Transportable (or_empty p)
unfolding or_empty has_tuple_key if◌then◌else◌
or_empty-Transportable (atom v) t = elim (Bool-cases (truthy v)) [
  | inl holds ↦ rw holds tt
  | inr falsy ↦ rw falsy (inr (refl, tt))
]
or_empty-Transportable (list no_params) t = inr (refl, tt)
or_empty-Transportable (list (param p ps)) t = t
or_empty-Transportable (tuple ps) t = absurd t
or_empty-Transportable (callable name) t = absurd t
or_empty-Transportable (dict es) t = t

or_empty_idem : (p : Param) → or_empty (or_empty p) ≡ or_empty p
unfolding or_empty if◌then◌else◌
or_empty_idem (atom v) = elim (Bool-cases (truthy v)) [
  | inl holds ↦ rw holds (rw holds refl)
  | inr falsy ↦ rw falsy refl
]
or_empty_idem (list no_params) = refl
or_empty_idem (list (param p ps)) = refl
or_empty_idem (tuple no_params) = refl
or_empty_idem (tuple (param p ps)) = refl
or_empty_idem (callable name) = refl
or_empty_idem (dict es) = refl

-- what comes back as params that are not falsy, or as `{}`, was not falsy on the wire, or `{}`
or_empty_wire-back :
    (w : Wire) (q : Param)
    → or_empty q ≡ q
    → deserialize_value w ≡ ok q
    → deserialize_value (or_empty_wire w) ≡ ok q
unfolding or_empty or_empty_wire deserialize_value if◌then◌else◌
or_empty_wire-back (wire_atom v) q full back = elim (Bool-cases (truthy v)) [
  | inl holds ↦ rw holds back
  | inr falsy ↦
      let same : atom v ≡ q = cc in
      let empty : or_empty (atom v) ≡ dict no_entries = rw falsy refl in cc
]
or_empty_wire-back (wire_list no_wires) q full back =
    let same : list no_params ≡ q = cc in
    let empty : or_empty (list no_params) ≡ dict no_entries = refl in cc
or_empty_wire-back (wire_list (wire w ws)) q full back = back
or_empty_wire-back (wire_dict fs) q full back = back

-- the params of a node, over the wire and back
pub params-Back :
    (p : Param)
    → Transportable p
    → (w : Wire) × (serialize_value (or_empty p) ≡ ok w)
      × (deserialize_value (or_empty_wire w) ≡ ok (or_empty p))
params-Back p t =
    let (w, there, back) = value-Back (or_empty p) (or_empty-Transportable p t) in
    (w, there, or_empty_wire-back w (or_empty p) (or_empty_idem p) back)
