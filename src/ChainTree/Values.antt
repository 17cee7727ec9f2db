-- ===== src/ChainTree/Values.antt =====
-- What events and node dicts of chain_tree hold.
use robot_person.Base.{ℕ, String, Bool, Option, none, some, str_eq, if◌then◌else◌}

-- The payload of an event. A dict may hold a reference to a node, which is the node's identity.
mutual
  pub data Datum : Type 0 where
    null : Datum
    boolean : Bool → Datum
    number : ℕ → Datum
    text : String → Datum
    node_ref : ℕ → Datum
    dict : Fields → Datum

  -- the entries of a dict, in the order of insertion
  pub data Fields : Type 0 where
    nil : Fields
    field : String → Datum → Fields → Fields

-- `d.get(key)` of a dict, and whether the key is there
unfoldable pub get_field : String → Fields → Option Datum
unfolding if◌then◌else◌
get_field key nil = none
get_field key (field k v others) =
    let found = get_field key others in if str_eq k key then some v else found

-- `d[key] = value`: an entry that is written again keeps its place
unfoldable pub set_field : String → Datum → Fields → Fields
unfolding if◌then◌else◌
set_field key value nil = field key value nil
set_field key value (field k v others) =
    let written = set_field key value others in
    if str_eq k key then field k value others else field k v written

-- `d.setdefault(key, value)`
unfoldable pub set_default : String → Datum → Fields → Fields
unfolding get_field set_field
set_default key value fields = elim (get_field key fields) [
  | some v ↦ fields
  | none ↦ set_field key value fields
]

-- An event as `make_event` builds it.
pub record Event : Type 0 where
  -- a node, unless something else was passed
  pub target : Datum
  pub event_type : String
  pub event_id : String
  pub payload : Datum
  pub priority : String

-- A port: which streaming packets a node takes.
pub record Port : Type 0 where
  pub event_id : Option String
  pub schema : Option String
  pub event_type : Option String
