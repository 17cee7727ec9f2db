-- ===== src/SEngine/Leaves/Pred.antt =====
-- s_engine/se_builtins/pred.py: the predicates. A comparison of values that have no order raises a
-- TypeError, as in Python.
pub mod Logic
use robot_person.Base.{
  ℕ, ◌+◌, ◌%◌, String, Bool, true, false, not, ◌||◌, Option, none, some, List, [], ◌∷◌, ◌==◌, leb,
  length, lookup, insert, str_eq, ℤ, pos, ◌+ℤ◌, if◌then◌else◌,
}
use robot_person.SEngine.Values.{Value, null, int, as_int, truthy, value_eq, value_lt}
use robot_person.SEngine.State.{
  State, Cell, Action, pure, raise, gets, modify, get_cell, modify_cell, value_error, type_error,
  ◌>>=◌, ◌>>◌,
}
use robot_person.SEngine.Handle.{Handle}
use robot_person.SEngine.Dispatch.{invoke_pred}
use robot_person.SEngine.Routing.{or_null}

unfoldable pub pred_and : List Handle → Action Bool
pred_and [] = pure true
pred_and (h ∷ hs) = let rest = pred_and hs in do b ← invoke_pred h; if b then rest else pure false

unfoldable pub pred_or : List Handle → Action Bool
pred_or [] = pure false
pred_or (h ∷ hs) = let rest = pred_or hs in do b ← invoke_pred h; if b then pure true else rest

-- exactly one child, or a ValueError
unfoldable pub pred_not : List Handle → Action Bool
pred_not (h ∷ []) = do b ← invoke_pred h; pure (not b)
pred_not _ = raise value_error

unfoldable pub pred_nor : List Handle → Action Bool
pred_nor children = do b ← pred_or children; pure (not b)

unfoldable pub pred_nand : List Handle → Action Bool
pred_nand children = do b ← pred_and children; pure (not b)

-- the loop of `pred_xor`: how many children are true
unfoldable pub count_true : ℕ → List Handle → Action ℕ
count_true count [] = pure count
count_true count (h ∷ hs) = do b ← invoke_pred h; count_true (if b then count + 1 else count) hs

unfoldable pub pred_xor : List Handle → Action Bool
pred_xor children = do n ← count_true 0 children; pure (n % 2 == 1)

abbrev is_current : String → Option String → Bool
is_current event_id none = false
is_current event_id (some current) = str_eq current event_id

unfoldable pub check_event : String → Action Bool
check_event event_id = gets (λ s. is_current event_id s.current_event_id)

-- `inst["module"]["dictionary"].get(key)`
unfoldable pub read_key : String → Action Value
read_key key = gets (λ s. or_null (lookup key s.dictionary))

-- an order that may not exist
abbrev pub or_type_error : Option Bool → Action Bool
or_type_error none = raise type_error
or_type_error (some b) = pure b

unfoldable pub dict_eq : String → Value → Action Bool
dict_eq key value = do v ← read_key key; pure (value_eq v value)

unfoldable pub dict_ne : String → Value → Action Bool
dict_ne key value = do v ← read_key key; pure (not (value_eq v value))

unfoldable pub dict_gt : String → Value → Action Bool
dict_gt key value = do v ← read_key key; or_type_error (value_lt value v)

-- `a <= b`, where the two have an order: a < b or a == b
unfoldable pub value_le : Value → Value → Option Bool
value_le a b = elim (value_lt a b) [ none ↦ none | some lt ↦ some (lt || value_eq a b) ]

unfoldable pub dict_ge : String → Value → Action Bool
dict_ge key value = do v ← read_key key; or_type_error (value_le value v)

unfoldable pub dict_lt : String → Value → Action Bool
dict_lt key value = do v ← read_key key; or_type_error (value_lt v value)

unfoldable pub dict_le : String → Value → Action Bool
dict_le key value = do v ← read_key key; or_type_error (value_le v value)

-- `min <= v <= max`: the second comparison is made only if the first holds
unfoldable pub dict_in_range : String → Value → Value → Action Bool
dict_in_range key low high = do
  v ← read_key key
  above ← or_type_error (value_le low v)
  if above then or_type_error (value_le v high) else pure false

unfoldable pub set_key : String → Value → Action (Unit {0})
set_key key value = modify (λ s. record s { dictionary = insert key value s.dictionary })

abbrev pub int_or_raise : Option ℤ → Action ℤ
int_or_raise none = raise type_error
int_or_raise (some n) = pure n

-- `(d.get(key) or 0)` as the left side of `+`: a text raises a TypeError there
unfoldable pub or_zero : Value → Action ℤ
or_zero v = if truthy v then int_or_raise (as_int v) else pure (pos 0)

unfoldable pub dict_inc_and_test : String → ℤ → Action Bool
dict_inc_and_test key threshold = do
  v ← read_key key
  n ← or_zero v
  set_key key (int (n +ℤ pos 1))
  or_type_error (value_le (int threshold) (int (n +ℤ pos 1)))

unfoldable pub state_inc_and_test : ℕ → ℕ → Action Bool
state_inc_and_test threshold i = do
  modify_cell i (λ c. record c { state = c.state + 1 })
  c ← get_cell i
  pure (leb threshold c.state)
