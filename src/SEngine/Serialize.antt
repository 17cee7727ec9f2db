-- ===== src/SEngine/Serialize.antt =====
-- s_engine/se_runtime/serialize.py: trees as data, and back. A function is a value of a type of
-- its own with a name; a registry gives functions by name. Floats are no values here, and a wire
-- tree has all four of its keys.
pub mod Roundtrip
pub mod Trust
use Prim.Native.Char.{Char}
use robot_person.Base.{
  String, Bool, true, false, ◌||◌, ◌&&◌, Option, none, some, List, [], ◌∷◌, if◌then◌else◌,
}
use robot_person.SEngine.Values.{Value, str, truthy, value_eq}
use robot_person.SEngine.State.{Result, ok, raised, type_error, value_error, key_error}
use robot_person.SEngine.Handle.{CallType}

-- a key of a dict in params: a tuple, or any other value
pub data Key : Type 0 where
  plain : Value → Key
  parts : List Value → Key

-- params: values, lists, tuples, dicts and callables
mutual
  pub data Param : Type 0 where
    atom : Value → Param
    list tuple : Params → Param
    dict : Entries → Param
    callable : (name : String) → Param

  pub data Params : Type 0 where
    no_params : Params
    param : Param → Params → Params

  pub data Entries : Type 0 where
    no_entries : Entries
    entry : Key → Param → Entries → Entries

-- what JSON can hold, with any value for the key of an object
mutual
  pub data Wire : Type 0 where
    wire_atom : Value → Wire
    wire_list : Wires → Wire
    wire_dict : Fields → Wire

  pub data Wires : Type 0 where
    no_wires : Wires
    wire : Wire → Wires → Wires

  pub data Fields : Type 0 where
    no_fields : Fields
    field : Value → Wire → Fields → Fields

module _ {A B : Type 0} where
  infixl 10 ◌>>=◌
  abbrev pub ◌>>=◌ : Result A → (A → Result B) → Result B
  r >>= f = elim r [ ok a ↦ f a | raised e ↦ raised e ]

abbrev pub tuple_key_marker : Value
tuple_key_marker = str "__tuple_keyed__"

unfoldable pub is_marker : Value → Bool
is_marker v = value_eq v tuple_key_marker

-- `any(isinstance(k, tuple) for k in value)`
unfoldable pub has_tuple_key : Entries → Bool
has_tuple_key no_entries = false
has_tuple_key (entry (parts vs) v es) = true
has_tuple_key (entry (plain k) v es) = has_tuple_key es

unfoldable pub atoms : List Value → Wires
atoms [] = no_wires
atoms (v ∷ vs) = wire (wire_atom v) (atoms vs)

-- the characters of a text, as texts
unfoldable pub characters : String → Wires
characters String.[] = no_wires
characters (String.◌∷◌ c s) = wire (wire_atom (str (String.◌∷◌ c String.[]))) (characters s)

-- `list(k)`
unfoldable pub list_of_key : Key → Result Wires
list_of_key (parts vs) = ok (atoms vs)
list_of_key (plain (str s)) = ok (characters s)
list_of_key (plain _) = raised type_error

abbrev pub tagged_dict : Wires → Wire
tagged_dict ws = wire_dict (field tuple_key_marker (wire_list ws) no_fields)

abbrev pub pair : Wire → Wire → Wire
pair k v = wire_list (wire k (wire v no_wires))

unfoldable mutual
  pub serialize_value : Param → Result Wire
  serialize_value (atom v) = ok (wire_atom v)
  serialize_value (list ps) = do ws ← serialize_values ps; ok (wire_list ws)
  serialize_value (tuple ps) = do ws ← serialize_values ps; ok (wire_list ws)
  serialize_value (callable name) = raised type_error
  serialize_value (dict es) =
      let tagged = serialize_tagged es in
      let fields = serialize_plain es in
      if has_tuple_key es
      then (do ws ← tagged; ok (tagged_dict ws))
      else do fs ← fields; ok (wire_dict fs)

  pub serialize_values : Params → Result Wires
  serialize_values no_params = ok no_wires
  serialize_values (param p ps) = do w ← serialize_value p; ws ← serialize_values ps; ok (wire w ws)

  -- `[[list(k), _serialize_value(v)] for k, v in value.items()]`
  pub serialize_tagged : Entries → Result Wires
  serialize_tagged no_entries = ok no_wires
  serialize_tagged (entry k v es) = do
    ks ← list_of_key k
    w ← serialize_value v
    ws ← serialize_tagged es
    ok (wire (pair (wire_list ks) w) ws)

  -- the entries of a dict without a tuple for a key
  pub serialize_plain : Entries → Result Fields
  serialize_plain no_entries = ok no_fields
  serialize_plain (entry (parts vs) v es) = raised type_error
  serialize_plain (entry (plain k) v es) = do
    w ← serialize_value v
    fs ← serialize_plain es
    ok (field k w fs)

-- the elements of what is iterated: a list, the keys of a dict, the characters of a text
unfoldable pub field_keys : Fields → Wires
field_keys no_fields = no_wires
field_keys (field k v fs) = wire (wire_atom k) (field_keys fs)

unfoldable pub iterated : Wire → Result Wires
iterated (wire_list ws) = ok ws
iterated (wire_dict fs) = ok (field_keys fs)
iterated (wire_atom (str s)) = ok (characters s)
iterated (wire_atom _) = raised type_error

-- the parts of a tuple used as a key; a list or dict among them has no hash
unfoldable pub hashable : Wires → Result (List Value)
hashable no_wires = ok []
hashable (wire (wire_atom v) ws) = do vs ← hashable ws; ok (v ∷ vs)
hashable (wire _ ws) = raised type_error

unfoldable pub values_eq : List Value → List Value → Bool
values_eq [] [] = true
values_eq (v ∷ vs) (w ∷ ws) = value_eq v w && values_eq vs ws
values_eq _ _ = false

unfoldable pub key_eq : Key → Key → Bool
key_eq (plain v) (plain w) = value_eq v w
key_eq (parts vs) (parts ws) = values_eq vs ws
key_eq _ _ = false

-- the value of a key, or one given
unfoldable pub value_or : Key → Param → Entries → Param
value_or k p no_entries = p
value_or k p (entry j q es) = if key_eq k j then q else value_or k p es

unfoldable pub remove : Key → Entries → Entries
remove k no_entries = no_entries
remove k (entry j q es) = if key_eq k j then es else entry j q (remove k es)

-- a comprehension of a dict that meets the key again later keeps its place and takes the later value
unfoldable pub put_first : Key → Param → Entries → Entries
put_first k p es = entry k (value_or k p es) (remove k es)

unfoldable mutual
  pub deserialize_value : Wire → Result Param
  deserialize_value (wire_atom v) = ok (atom v)
  deserialize_value (wire_list ws) = do ps ← deserialize_values ws; ok (list ps)
  deserialize_value (wire_dict fs) =
      let fields = deserialize_plain fs in
      elim (deserialize_marked fs) [
        | some tagged ↦ do es ← tagged; ok (dict es)
        | none ↦ do es ← fields; ok (dict es)
      ]

  pub deserialize_values : Wires → Result Params
  deserialize_values no_wires = ok no_params
  deserialize_values (wire w ws) = do
    p ← deserialize_value w
    ps ← deserialize_values ws
    ok (param p ps)

  pub deserialize_plain : Fields → Result Entries
  deserialize_plain no_fields = ok no_entries
  deserialize_plain (field k w fs) = do
    p ← deserialize_value w
    es ← deserialize_plain fs
    ok (entry (plain k) p es)

  -- the entries under the marker, if the marker is there
  pub deserialize_marked : Fields → Option (Result Entries)
  deserialize_marked no_fields = none
  deserialize_marked (field k (wire_list ws) fs) =
      let tagged = deserialize_tagged ws in
      let later = deserialize_marked fs in if is_marker k then some tagged else later
  deserialize_marked (field k w fs) =
      let later = deserialize_marked fs in if is_marker k then some (raised type_error) else later

  -- `{tuple(k): _deserialize_value(v) for k, v in …}` over a list of lists, as it is written; a text
  -- or a dict of two elements in the place of a list is an error here
  pub deserialize_tagged : Wires → Result Entries
  deserialize_tagged no_wires = ok no_entries
  deserialize_tagged (wire (wire_list (wire k (wire v no_wires))) ws) = do
    ks ← iterated k
    p ← deserialize_value v
    vs ← hashable ks
    es ← deserialize_tagged ws
    ok (put_first (parts vs) p es)
  deserialize_tagged (wire (wire_list _) ws) = raised value_error
  deserialize_tagged (wire _ ws) = raised type_error

-- the shape of a tree: a function, a call type and params at every node
mutual
  pub data RawTree (F P : Type 0) : Type 0 where
    raw : F → CallType → P → RawTrees F P → RawTree F P

  pub data RawTrees (F P : Type 0) : Type 0 where
    no_trees : RawTrees F P
    and_tree : RawTree F P → RawTrees F P → RawTrees F P

-- `params or {}`, of what a node and what the wire hold
unfoldable pub or_empty : Param → Param
unfolding if◌then◌else◌
or_empty (atom v) = if truthy v then atom v else dict no_entries
or_empty (list no_params) = dict no_entries
or_empty (tuple no_params) = dict no_entries
or_empty p = p

unfoldable pub or_empty_wire : Wire → Wire
unfolding if◌then◌else◌
or_empty_wire (wire_atom v) = if truthy v then wire_atom v else wire_dict no_fields
or_empty_wire (wire_list no_wires) = wire_dict no_fields
or_empty_wire w = w

module _ {F : Type 0} (name : F → String) where
  unfoldable mutual
    pub serialize_tree : RawTree F Param → Result (RawTree String Wire)
    serialize_tree (raw f t p ks) = do
      w ← serialize_value (or_empty p)
      ws ← serialize_trees ks
      ok (raw (name f) t w ws)

    pub serialize_trees : RawTrees F Param → Result (RawTrees String Wire)
    serialize_trees no_trees = ok no_trees
    serialize_trees (and_tree k ks) = do
      w ← serialize_tree k
      ws ← serialize_trees ks
      ok (and_tree w ws)

-- `fn_registry.get(fn_name)`, a KeyError where there is none
abbrev pub registered : {F : Type 0} → Option F → Result F
registered none = raised key_error
registered (some f) = ok f

module _ {F : Type 0} (fn_registry : String → Option F) where
  unfoldable mutual
    pub deserialize_tree : RawTree String Wire → Result (RawTree F Param)
    deserialize_tree (raw n t w ks) = do
      f ← registered (fn_registry n)
      p ← deserialize_value (or_empty_wire w)
      ts ← deserialize_trees ks
      ok (raw f t p ts)

    pub deserialize_trees : RawTrees String Wire → Result (RawTrees F Param)
    deserialize_trees no_trees = ok no_trees
    deserialize_trees (and_tree k ks) = do
      t ← deserialize_tree k
      ts ← deserialize_trees ks
      ok (and_tree t ts)
