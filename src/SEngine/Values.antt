-- ===== src/SEngine/Values.antt =====
-- Values of the module dictionary, and the parts of Python's semantics of them that the
-- predicates and oneshots use: `==`, `<`, truth. Floats and containers are not values here.
use Prim.Native.Nat.{◌^◌}
use robot_person.Base.{
  ℕ, String, Bool, true, false, Option, none, some, List, [], ◌∷◌, str_eq, str_lt, ℤ, pos, ltb_ℤ,
  scale_ℤ, eqb_ℤ, if◌then◌else◌,
}

pub data Value : Type 0 where
  null : Value
  bool : Bool → Value
  int : ℤ → Value
  str : String → Value

-- A finite float of seconds, which is a whole number over a power of two.
pub record Seconds : Type 0 where
  pub numerator : ℤ
  pub exponent : ℕ

-- `seconds > 0` and `seconds < 0`
abbrev pub is_positive : Seconds → Bool
is_positive seconds = ltb_ℤ (pos 0) seconds.numerator

abbrev pub is_negative : Seconds → Bool
is_negative seconds = ltb_ℤ seconds.numerator (pos 0)

-- `seconds * 2 ** k`, which is exact as long as the exponent of the float is not exhausted
abbrev pub times_power_of_two : Seconds → ℕ → Seconds
times_power_of_two seconds k = record {
  numerator = scale_ℤ seconds.numerator (2 ^ k);
  exponent = seconds.exponent;
}

-- Python's `bool` is an `int`: True is 1 and False is 0.
unfoldable pub as_int : Value → Option ℤ
as_int (bool true) = some (pos 1)
as_int (bool false) = some (pos 0)
as_int (int n) = some n
as_int _ = none

unfoldable pub truthy : Value → Bool
unfolding if◌then◌else◌
truthy null = false
truthy (bool b) = b
truthy (int n) = if eqb_ℤ n (pos 0) then false else true
truthy (str s) = if str_eq s "" then false else true

-- `a == b`: numbers by value, texts by content, None only with itself.
unfoldable pub value_eq : Value → Value → Bool
unfolding as_int
value_eq null null = true
value_eq (str s) (str t) = str_eq s t
value_eq a b = elim (as_int a) [
  | none ↦ false
  | some m ↦ elim (as_int b) [ none ↦ false | some n ↦ eqb_ℤ m n ]
]

-- `a < b`; `none` is the TypeError of values that are not ordered.
unfoldable pub value_lt : Value → Value → Option Bool
unfolding as_int str_lt
value_lt (str s) (str t) = some (str_lt s t)
value_lt a b = elim (as_int a) [
  | none ↦ none
  | some m ↦ elim (as_int b) [ none ↦ none | some n ↦ some (ltb_ℤ m n) ]
]

-- `mapping.get(value)` of a dict with values for keys
unfoldable pub value_lookup : Value → List (Value × ℕ) → Option ℕ
unfolding value_eq if◌then◌else◌
value_lookup v [] = none
value_lookup v ((w, i) ∷ m) = if value_eq w v then some i else value_lookup v m
