-- ===== src/SEngine/State.antt =====
-- The mutable state of a run, and actions on it. A node of a tree is a Python dict: its identity
-- is a number, and `cells` holds the fields that the engine writes, by identity. The instance's
-- queues and event context, the module's dictionary and what was logged stand beside them.
-- An action may raise; what was written before the raise stays written.
use robot_person.Base.{
  ℕ, ℤ, ◌+◌, ◌≡◌, refl, String, Bool, true, false, Option, none, List, [], ◌==◌, if◌then◌else◌,
}
use robot_person.SEngine.Values.{Value, Seconds}

-- `node["user_data"]`, by what the operators store there
pub data UserData : Type 0 where
  no_data : UserData
  child_index : ℕ → UserData
  state_name : String → UserData
  deadline : ℤ → UserData
  start_time : ℕ → UserData
  event_count : ℕ → UserData

pub record Cell : Type 0 where
  pub active : Bool
  pub initialized : Bool
  pub ever_init : Bool
  pub state : ℕ
  pub user_data : UserData
  -- the optional key "deadline" of timing nodes: absent, or holding a value
  pub deadline_key : Option (Option ℕ)

pub record EventData : Type 0 where
  pub timestamp : Option ℕ
  pub fields : List (String × Value)

pub record Event : Type 0 where
  pub event_id : String
  pub event_data : EventData

-- A call of the module's logger, by the parts of the line it formats.
pub data LogLine : Type 0 where
  logged : (message : String) → LogLine
  logged_key : (message key : String) → Value → LogLine

pub record State : Type 0 where
  pub cells : ℕ → Cell
  pub high_queue : List Event
  pub normal_queue : List Event
  pub current_event_id : Option String
  pub current_event_data : Option EventData
  pub dictionary : List (String × Value)
  pub log : List LogLine
  -- how often the clocks were read
  pub time_reads : ℕ
  pub wall_reads : ℕ

pub data Error : Type 0 where
  value_error type_error key_error index_error overflow_error : Error

pub data Result (A : Type 0) : Type 0 where
  ok : A → Result A
  raised : Error → Result A

abbrev pub Action : Type 0 → Type 0
Action A = State → Result A × State

module _ {A : Type 0} where
  unfoldable pub pure : A → Action A
  pure a s = (ok a, s)

  unfoldable pub raise : Error → Action A
  raise e s = (raised e, s)

  unfoldable pub gets : (State → A) → Action A
  gets f s = (ok (f s), s)

unfoldable pub modify : (State → State) → Action (Unit {0})
modify f s = (ok tt, f s)

abbrev pub update : (ℕ → Cell) → ℕ → Cell → ℕ → Cell
update f i c j = elim (i == j) [ true ↦ c | false ↦ f j ]

unfoldable pub get_cell : ℕ → Action Cell
get_cell i s = (ok (s.cells i), s)

-- assignments to the fields of the node `i`
unfoldable pub modify_cell : ℕ → (Cell → Cell) → Action (Unit {0})
modify_cell i f s = (ok tt, record s { cells = update s.cells i (f (s.cells i)) })

module _ {A B : Type 0} where
  abbrev pub and_then : Result A → (A → Action B) → Action B
  and_then (ok a) f s = f a s
  and_then (raised e) f s = (raised e, s)

  infixl 10 ◌>>=◌ ◌>>◌
  unfoldable pub ◌>>=◌ : Action A → (A → Action B) → Action B
  unfolding pure raise gets modify get_cell modify_cell if◌then◌else◌
  ◌>>=◌ m f s = let (r, s') = m s in and_then r f s'

  abbrev pub ◌>>◌ : Action A → Action B → Action B
  m >> n = m >>= λ _. n

module _ {A B : Type 0} where
  -- a block that returns has run its first action, which returned
  pub >>=-eq-ok :
      (m : Action A) (f : A → Action B) (s t : State) {b : B}
      → (m >>= f) s ≡ (ok b, t)
      → (a : A) × (u : State) × (m s ≡ (ok a, u)) × (f a u ≡ (ok b, t))
  unfolding ◌>>=◌
  >>=-eq-ok m f s t p = and_then-eq-ok (m s) refl p
    where
      and_then-eq-ok :
          {b : B} (r : Result A × State)
          → m s ≡ r
          → and_then r.0 f r.1 ≡ (ok b, t)
          → (a : A) × (u : State) × (m s ≡ (ok a, u)) × (f a u ≡ (ok b, t))
      and_then-eq-ok (ok a, u) e q = (a, u, e, q)
      and_then-eq-ok (raised x, u) e q = cc

-- a node as `make_node` builds it
abbrev pub fresh_cell : Cell
fresh_cell = record {
  active = true;
  initialized = false;
  ever_init = false;
  state = 0;
  user_data = no_data;
  deadline_key = none;
}

abbrev pub no_event_data : EventData
no_event_data = record { timestamp = none; fields = [] }

-- a new instance over a module with the given dictionary
abbrev pub fresh_state : List (String × Value) → State
fresh_state dictionary = record {
  cells = λ _. fresh_cell;
  high_queue = [];
  normal_queue = [];
  current_event_id = none;
  current_event_data = none;
  dictionary = dictionary;
  log = [];
  time_reads = 0;
  wall_reads = 0;
}

-- `datetime.fromtimestamp`, by the fields that the time windows read
pub record LocalTime : Type 0 where
  pub hour : ℕ
  pub minute : ℕ
  pub second : ℕ
  pub weekday : ℕ
  pub day : ℕ

-- What a module holds that no run writes: the limit on the queues, and the clocks, each by the
-- number of the reading. Neither the clocks, nor the calendar, nor
-- the product of floats are code of the repository; the product takes seconds to nanoseconds.
pub record Env : Type 0 where
  pub event_queue_limit : Option ℕ
  pub get_time : ℕ → ℕ
  pub local_time : ℕ → LocalTime
  -- `int(seconds * 10**9)`
  pub to_ns : Seconds → ℤ

unfoldable pub read_time : Env → Action ℕ
read_time env s = (ok (env.get_time s.time_reads), record s { time_reads = s.time_reads + 1 })

unfoldable pub read_local_time : Env → Action LocalTime
read_local_time env s =
    (ok (env.local_time s.wall_reads), record s { wall_reads = s.wall_reads + 1 })
