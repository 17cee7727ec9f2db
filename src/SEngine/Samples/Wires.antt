-- ===== src/SEngine/Samples/Wires.antt =====
-- A state machine's node on the way to the wire and back.
use robot_person.Base.{◌≡◌, refl, String, Option, some, [], ◌∷◌, inl, inr}
use robot_person.SEngine.Values.{null, str, truthy, value_eq}
use robot_person.SEngine.State.{ok}
use robot_person.SEngine.Handle.{m_call, o_call}
use robot_person.SEngine.Serialize.{
  plain, parts, Param, atom, dict, no_entries, entry, Wire, wire_dict, no_fields, is_marker,
  has_tuple_key, key_eq, values_eq, RawTree, raw, no_trees, and_tree, wire_atom, wire_list,
  no_wires, or_empty_wire, serialize_tree, deserialize_value, deserialize_tree,
}
use robot_person.SEngine.Serialize.Trust.{
  TreeTransportable, with_params, fns, looked_up, found, deserialize_tree-serialize_tree,
  deserialize_tree-looked_up,
}

abbrev same_name : String → String
same_name s = s

abbrev any_name : String → Option String
any_name s = some s

-- {"transitions": {("idle", "start"): "running", ("running", "stop"): "idle"}}
abbrev machine_params : Param
machine_params = dict (
    entry (plain (str "transitions"))
      (dict (
        entry (parts (str "idle" ∷ str "start" ∷ [])) (atom (str "running"))
          (entry (parts (str "running" ∷ str "stop" ∷ [])) (atom (str "idle")) no_entries)))
      no_entries)

-- its child has None for params
abbrev machine_tree : RawTree String Param
machine_tree =
    raw "se_state_machine" m_call machine_params
      (and_tree (raw "se_nop" m_call (atom null) no_trees) no_trees)

machine_tree-TreeTransportable : TreeTransportable machine_tree
unfolding is_marker has_tuple_key key_eq values_eq value_eq
machine_tree-TreeTransportable =
    (inr (refl, (refl, (inl (refl, ((refl, tt), (tt, (tt, (tt, tt))))), tt))), ((tt, tt), tt))

deserialize_tree-serialize_tree_example :
    (w : RawTree String Wire) × (serialize_tree same_name machine_tree ≡ ok w)
    × (deserialize_tree any_name w ≡ ok (with_params machine_tree))
deserialize_tree-serialize_tree_example =
    deserialize_tree-serialize_tree same_name any_name machine_tree (λ f. refl)
      machine_tree-TreeTransportable

abbrev pair_wire : RawTree String Wire
pair_wire = raw "se_sequence" m_call (wire_dict no_fields) (
    and_tree (raw "se_nop" m_call (wire_list no_wires) no_trees)
      (and_tree (raw "se_log" o_call (wire_atom null) no_trees) no_trees))

abbrev pair_tree : RawTree String Param
pair_tree = raw "se_sequence" m_call (dict no_entries) (
    and_tree (raw "se_nop" m_call (dict no_entries) no_trees)
      (and_tree (raw "se_log" o_call (dict no_entries) no_trees) no_trees))

deserialize_tree-pair : deserialize_tree any_name pair_wire ≡ ok pair_tree
unfolding deserialize_tree deserialize_value or_empty_wire truthy
deserialize_tree-pair = refl

deserialize_tree-looked_up_example : looked_up any_name (fns pair_wire) ≡ found (fns pair_tree)
deserialize_tree-looked_up_example =
    deserialize_tree-looked_up any_name pair_wire pair_tree deserialize_tree-pair
