-- ===== src/ChainTree/State.antt =====
-- The mutable state of a chain_tree engine, and actions on it. A node is a Python dict; its identity
-- is a number. `control` is `node["ct_control"]` and `node_data` is `node["data"]`, by identity.
-- An action may raise; what was written before the raise stays written.
use robot_person.Base.{
  ℕ, ◌≡◌, ◌≢◌, refl, ap, String, Bool, true, false, Option, none, List, [], ◌==◌, ==_iff,
  if◌then◌else◌,
}
use robot_person.ChainTree.Values.{Datum, null, Fields, nil, Event, Port}
use robot_person.ChainTree.Registry.{Registry}

-- an entry of `sequence_state["results"]`
pub record Outcome : Type 0 where
  pub status : Bool
  pub outcome_data : Datum

pub record SequenceState : Type 0 where
  pub current_index : ℕ
  pub results : List (Option Outcome)
  pub final_status : Option Bool
  pub finalize_fn : String

-- `failures` are the timestamps of the SupervisorFailureCounter, the oldest first
pub record SupervisorState : Type 0 where
  pub reset_count : ℕ
  pub window : ℕ
  pub failures : List ℕ

pub data Stage : Type 0 where
  stage_main stage_recovery stage_finalize : Stage

pub record ExceptionState : Type 0 where
  pub exception_stage : Stage
  pub main_link : ℕ
  pub recovery_link : ℕ
  pub finalize_link : ℕ
  pub parent_exception_node : Option ℕ
  pub logging_fn : String
  pub boolean_filter_fn : String
  pub raised_exception : Option Fields
  pub heartbeat_enabled : Bool
  pub heartbeat_time_out : ℕ
  pub heartbeat_count : ℕ
  pub step_count : ℕ

pub record Control : Type 0 where
  pub enabled : Bool
  pub initialized : Bool
  pub sequence_state : Option SequenceState
  pub supervisor_state : Option SupervisorState
  pub exception_state : Option ExceptionState

-- The keys that the builtins read and write. A key with a default stands for its value, the other
-- optional keys are options, and the keys that a builtin requires are taken to be there.
pub record NodeData : Type 0 where
  pub start_time : Option ℕ
  pub time_delay : ℕ
  pub target_event_id : Option String
  pub target_count : ℕ
  pub current_count : ℕ
  pub timeout : ℕ
  pub timeout_event_id : String
  pub timeout_count : ℕ
  pub error_fn : String
  pub reset_flag : Bool
  pub state_names : List String
  pub initial_state : String
  pub current_state_index : ℕ
  pub current_state_name : Option String
  pub sm_node : ℕ
  pub new_state : String
  pub finalize_fn : String
  pub parent_node : Option ℕ
  pub result : Bool
  pub mark_data : Datum
  pub predicate_fn : Option String
  pub true_data : Datum
  pub false_data : Datum
  pub termination_type : String
  pub restart_enabled : Bool
  pub reset_limited_enabled : Bool
  pub max_reset_number : ℕ
  pub reset_window : ℕ
  pub logging_fn : String
  pub boolean_filter_fn : String
  pub exception_id : Datum
  pub exception_data : Datum
  pub step : ℕ
  pub server_node : ℕ
  pub client_node : Option Datum
  pub request_port : Port
  pub response_port : Port
  pub request_data : Fields
  pub response_data : Fields
  pub port : Port
  pub inports : List Port
  pub outport : Port
  pub target_node : Option ℕ
  pub pending : Fields
  pub message : String
  pub key : String
  pub value : Datum
  pub emit_event_id : String
  pub emit_data : Datum

pub record Kb : Type 0 where
  pub name : String
  pub root : ℕ

pub record World : Type 0 where
  pub control : ℕ → Control
  pub node_data : ℕ → NodeData
  -- `root["_kb"]`
  pub kb_ref : ℕ → Option Kb
  pub kbs : List (String × Kb)
  pub active_kbs : List Kb
  pub blackboard : String → Fields
  pub high : List Event
  pub normal : List Event
  pub registry : Registry
  pub running : Bool
  pub cfl_engine_flag : Bool
  pub last_clock_time : Option ℕ
  -- what the logger was called with
  pub log : List String
  -- how often the clock was read
  pub time_reads : ℕ

-- `out_of_fuel` is no error of Python: a loop did not end within the rounds that the model gives it.
pub data Error : Type 0 where
  value_error type_error key_error index_error attribute_error lookup_error runtime_error : Error
  out_of_fuel : Error

pub data Result (A : Type 0) : Type 0 where
  ok : A → Result A
  raised : Error → Result A

-- code that reads and writes variables of a type
abbrev pub Stateful : Type 0 → Type 0 → Type 0
Stateful S A = S → Result A × S

abbrev pub Action : Type 0 → Type 0
Action A = Stateful World A

module _ {S A : Type 0} where
  unfoldable pub pure : A → Stateful S A
  pure a s = (ok a, s)

  unfoldable pub raise : Error → Stateful S A
  raise e s = (raised e, s)

  unfoldable pub gets : (S → A) → Stateful S A
  gets f s = (ok (f s), s)

unfoldable pub modify : {S : Type 0} → (S → S) → Stateful S (Unit {0})
modify f s = (ok tt, f s)

abbrev pub update {ℓ} : {V : Type ℓ} → (ℕ → V) → ℕ → V → ℕ → V
update f i v j = elim (i == j) [ true ↦ v | false ↦ f j ]

module _ {V : Type 0} (f : ℕ → V) (i : ℕ) (v : V) where
  -- what holds of the new value and of the old one at `j` holds at `j` after the update
  pub update-cases : (Q : V → Type 0) (j : ℕ) → Q v → Q (f j) → Q (update f i v j)
  update-cases Q j new old = chosen (i == j)
    where
      chosen : (b : Bool) → Q (elim b [ true ↦ v | false ↦ f j ])
      chosen true = new
      chosen false = old

  -- the same, where the new value is only looked at if `j` is the index
  pub update-cases_eq : (Q : V → Type 0) (j : ℕ) → (i ≡ j → Q v) → Q (f j) → Q (update f i v j)
  update-cases_eq Q j new old = chosen (i == j) refl
    where
      chosen : (b : Bool) → (i == j) ≡ b → Q (elim b [ true ↦ v | false ↦ f j ])
      chosen true e = new ((==_iff i j).0 e)
      chosen false e = old

  pub update_self : update f i v i ≡ v
  update_self = ap (λ (b : Bool). elim b [ true ↦ v | false ↦ f i ]) ((==_iff i i).1 refl)

unfoldable pub get_control : ℕ → Action Control
get_control i s = (ok (s.control i), s)

unfoldable pub get_data : ℕ → Action NodeData
get_data i s = (ok (s.node_data i), s)

-- assignments to keys of `node["ct_control"]` and `node["data"]`
unfoldable pub modify_control : ℕ → (Control → Control) → Action (Unit {0})
modify_control i f s = (ok tt, record s { control = update s.control i (f (s.control i)) })

unfoldable pub modify_data : ℕ → (NodeData → NodeData) → Action (Unit {0})
modify_data i f s = (ok tt, record s { node_data = update s.node_data i (f (s.node_data i)) })

module _ {S A B : Type 0} where
  abbrev pub and_then : Result A → (A → Stateful S B) → Stateful S B
  and_then (ok a) f s = f a s
  and_then (raised e) f s = (raised e, s)

  infixl 10 ◌>>=◌ ◌>>◌
  unfoldable pub ◌>>=◌ : Stateful S A → (A → Stateful S B) → Stateful S B
  unfolding pure raise gets modify get_control get_data modify_control modify_data if◌then◌else◌
  ◌>>=◌ m f s = let (r, s') = m s in and_then r f s'

  abbrev pub ◌>>◌ : Stateful S A → Stateful S B → Stateful S B
  m >> n = m >>= λ _. n

pub ok_inj : {A : Type 0} {a b : A} → ok a ≡ ok b → a ≡ b
ok_inj h = cc

pub raised-ne-ok : {A : Type 0} {e : Error} {a : A} → raised e ≢ ok a
raised-ne-ok h = cc

module _ {S A B : Type 0} where
  -- a block whose first action returns goes on behind it
  pub >>=-ok :
      (m : Stateful S A) (f : A → Stateful S B) {a : A} {s u : S}
      → m s ≡ (ok a, u)
      → (m >>= f) s ≡ f a u
  unfolding ◌>>=◌
  >>=-ok m f e = ap (λ (o : Result A × S). and_then o.0 f o.1) e

  -- a block that returns has run its first action, which returned
  pub >>=-eq-ok :
      (m : Stateful S A) (f : A → Stateful S B) (s t : S) {b : B}
      → (m >>= f) s ≡ (ok b, t)
      → (a : A) × (u : S) × (m s ≡ (ok a, u)) × (f a u ≡ (ok b, t))
  unfolding ◌>>=◌
  >>=-eq-ok m f s t p = returned (m s) refl p
    where
      returned :
          {b : B} (r : Result A × S)
          → m s ≡ r
          → and_then r.0 f r.1 ≡ (ok b, t)
          → (a : A) × (u : S) × (m s ≡ (ok a, u)) × (f a u ≡ (ok b, t))
      returned (ok a, u) e q = (a, u, e, q)
      returned (raised x, u) e q = absurd (raised-ne-ok (ap (λ (o : Result B × S). o.0) q))

abbrev pub no_port : Port
no_port = record { event_id = none; schema = none; event_type = none }

-- `node["data"]` of a node that sets no key
abbrev pub no_data : NodeData
no_data = record {
  start_time = none;
  time_delay = 0;
  target_event_id = none;
  target_count = 1;
  current_count = 0;
  timeout = 0;
  timeout_event_id = "CFL_TIMER_EVENT";
  timeout_count = 0;
  error_fn = "CFL_NULL";
  reset_flag = false;
  state_names = [];
  initial_state = "";
  current_state_index = 0;
  current_state_name = none;
  sm_node = 0;
  new_state = "";
  finalize_fn = "CFL_NULL";
  parent_node = none;
  result = false;
  mark_data = null;
  predicate_fn = none;
  true_data = null;
  false_data = null;
  termination_type = "ONE_FOR_ONE";
  restart_enabled = true;
  reset_limited_enabled = false;
  max_reset_number = 1;
  reset_window = 10000000000;
  logging_fn = "CFL_NULL";
  boolean_filter_fn = "CFL_NULL";
  exception_id = null;
  exception_data = null;
  step = 0;
  server_node = 0;
  client_node = none;
  request_port = no_port;
  response_port = no_port;
  request_data = nil;
  response_data = nil;
  port = no_port;
  inports = [];
  outport = no_port;
  target_node = none;
  pending = nil;
  message = "";
  key = "";
  value = null;
  emit_event_id = "";
  emit_data = null;
}

-- `ct_control` as `make_node` builds it
abbrev pub fresh_control : Control
fresh_control = record {
  enabled = false;
  initialized = false;
  sequence_state = none;
  supervisor_state = none;
  exception_state = none;
}

-- an engine without a KB
abbrev pub new_engine : (ℕ → NodeData) → Registry → World
new_engine config registry = record {
  control = λ _. fresh_control;
  node_data = config;
  kb_ref = λ _. none;
  kbs = [];
  active_kbs = [];
  blackboard = λ _. nil;
  high = [];
  normal = [];
  registry = registry;
  running = false;
  cfl_engine_flag = true;
  last_clock_time = none;
  log = [];
  time_reads = 0;
}
