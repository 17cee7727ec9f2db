-- ===== src/ChainTree/Builtins.antt =====
-- chain_tree/ct_builtins/: the functions of the node types. What they share: the optional boolean
-- function of a node, and the optional one-shot that `node["data"]` names.
pub mod Column
pub mod Waits
pub mod Sequence
pub mod Machine
pub mod Supervisor
pub mod Exception
pub mod Streaming
pub mod Controlled
pub mod System
use robot_person.Base.{
  ℕ, ◌==◌, String, Bool, true, false, not, ◌&&◌, Option, none, some, List, [], ◌∷◌, str_eq,
  if◌then◌else◌,
}
use robot_person.ChainTree.Codes.{
  CflCode, cfl_reset, cfl_terminate, cfl_halt, cfl_disable, cfl_continue, cfl_terminate_system,
  cfl_null,
}
use robot_person.ChainTree.Values.{
  Datum, null, boolean, number, text, node_ref, dict, Fields, nil, field, Event,
}
use robot_person.ChainTree.Registry.{lookup_boolean, lookup_one_shot}
use robot_person.ChainTree.State.{
  World, Control, Kb, attribute_error, value_error, type_error, Action, pure, raise, gets,
  modify_control, get_data, ◌>>=◌, ◌>>◌,
}
use robot_person.ChainTree.Node.{Program, MainFn}
use robot_person.ChainTree.Engine.{
  is_given, named, call_boolean, call_one_shot, enable_node, set_flags,
}

-- `name and name != "CFL_NULL"`
abbrev pub is_set : Option String → Bool
is_set name = is_given name && not (str_eq (named name) cfl_null)

module _ (p : Program) where
  -- The answer of the boolean function that a node names, on an event; `default` without one.
  unfoldable pub ask : Bool → Option String → Kb → ℕ → Event → Action Bool
  ask default name kb i event =
      if is_set name
      then (do
        fn ← gets (λ s. lookup_boolean s.registry (named name))
        call_boolean p fn kb i event.event_type event.event_id event.payload)
      else pure default

  -- the one-shot with a name, if the name is set
  unfoldable pub fire : String → Kb → ℕ → Action (Unit {0})
  fire name kb i =
      if is_set (some name)
      then (do fn ← gets (λ s. lookup_one_shot s.registry name); call_one_shot p fn kb i)
      else pure tt

  -- a failed assertion or a timeout: the error function, then a retry or the end of the parent
  unfoldable pub escalate : Kb → ℕ → Action CflCode
  escalate kb i = do
    d ← get_data i
    fire d.error_fn kb i
    d' ← get_data i
    pure (if d'.reset_flag then cfl_reset else cfl_terminate)

-- `event["data"] or {}`, of which `get` is asked for
unfoldable pub fields_of : Datum → Action Fields
fields_of null = pure nil
fields_of (boolean false) = pure nil
fields_of (boolean true) = raise attribute_error
fields_of (number n) = if n == 0 then pure nil else raise attribute_error
fields_of (text t) = if str_eq t "" then pure nil else raise attribute_error
fields_of (node_ref i) = raise attribute_error
fields_of (dict fields) = pure fields

-- `dict(event["data"] or {})`; a node, which is a dict to Python, is not taken for one here
unfoldable pub dict_of : Datum → Action Fields
dict_of null = pure nil
dict_of (boolean false) = pure nil
dict_of (boolean true) = raise type_error
dict_of (number n) = if n == 0 then pure nil else raise type_error
dict_of (text t) = if str_eq t "" then pure nil else raise value_error
dict_of (node_ref i) = raise type_error
dict_of (dict fields) = pure fields

unfoldable pub read_int : Option ℕ → Action ℕ
read_int none = raise value_error
read_int (some n) = pure n

-- `int(event["data"] or 0)`
unfoldable pub int_of : Program → Datum → Action ℕ
int_of p null = pure 0
int_of p (boolean b) = pure (if b then 1 else 0)
int_of p (number n) = pure n
int_of p (text t) = if str_eq t "" then pure 0 else read_int (p.parse_int t)
int_of p (node_ref i) = raise type_error
int_of p (dict nil) = pure 0
int_of p (dict (field k v others)) = raise type_error

-- `enable_node` on every child, and its undoing
unfoldable pub enable_all : List ℕ → Action (Unit {0})
enable_all [] = pure tt
enable_all (c ∷ cs) = do enable_node c; enable_all cs

unfoldable pub clear_all : List ℕ → Action (Unit {0})
clear_all [] = pure tt
clear_all (c ∷ cs) = do modify_control c (set_flags false); clear_all cs
