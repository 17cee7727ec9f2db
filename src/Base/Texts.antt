-- ===== src/Base/Texts.antt =====
-- Texts: equality, the order of Python's `<` (code point by code point), association lists.
use Prim.Native.Char.{code}
use Prim.Native.Nat.{ℕ}
use Prim.Native.String.{String}
use text.Mathlib.Text.{◌==◌}
use mathlib.Core.Bool.{Bool, true, false}
use mathlib.Core.List.{List, [], ◌∷◌}
use mathlib.Core.Option.{Option, none, some}
use mathlib.Core.Path.{◌≡◌, refl, ap}
use mathlib.Core.Logic.{inl, inr}
use text.Mathlib.TextEquality.{eq_iff}
use robot_person.Base.Tests.{Bool-cases, ltb, if◌then◌else◌}

abbrev pub str_eq : String → String → Bool
str_eq s t = s == t

-- what `ord` gives for each character
abbrev pub code_points : String → List ℕ
code_points String.[] = []
code_points (String.◌∷◌ first others) = code first ∷ code_points others

-- the lexicographic order of two sequences of code points
unfoldable pub codes_lt : List ℕ → List ℕ → Bool
unfolding if◌then◌else◌
codes_lt [] [] = false
codes_lt [] (y ∷ ys) = true
codes_lt (x ∷ xs) [] = false
codes_lt (x ∷ xs) (y ∷ ys) =
    let rest = codes_lt xs ys in if ltb x y then true else if ltb y x then false else rest

unfoldable pub str_lt : String → String → Bool
unfolding codes_lt
str_lt s t = codes_lt (code_points s) (code_points t)

-- A dict with text keys, in the order of insertion. An entry that is written again keeps its place.
module _ {ℓ} {V : Type ℓ} where
  unfoldable pub lookup : String → List (String × V) → Option V
  unfolding if◌then◌else◌
  lookup key [] = none
  lookup key (entry ∷ entries) =
      let found = lookup key entries in if str_eq entry.0 key then some entry.1 else found

  unfoldable pub insert : String → V → List (String × V) → List (String × V)
  unfolding if◌then◌else◌
  insert key value [] = (key, value) ∷ []
  insert key value (entry ∷ entries) =
      let others = insert key value entries in
      if str_eq entry.0 key then (entry.0, value) ∷ entries else entry ∷ others

  pub lookup-insert_self :
      (key : String) (value : V) (entries : List (String × V))
      → lookup key (insert key value entries) ≡ some value
  unfolding lookup insert if◌then◌else◌
  lookup-insert_self key value [] = rw ((eq_iff key key).1 refl) refl
  lookup-insert_self key value (entry ∷ entries) = elim (Bool-cases (str_eq entry.0 key)) [
    | inl e ↦ rw e (rw e refl)
    | inr e ↦ rw e (rw e (lookup-insert_self key value entries))
  ]

  pub lookup-insert_other :
      (key other : String) (value : V) (entries : List (String × V))
      → str_eq key other ≡ false
      → lookup other (insert key value entries) ≡ lookup other entries
  unfolding lookup insert if◌then◌else◌
  lookup-insert_other key other value [] h = rw h refl
  lookup-insert_other key other value (entry ∷ entries) h = elim (Bool-cases (str_eq entry.0 key)) [
    | inl e ↦ rw e (
        let apart : str_eq entry.0 other ≡ false = rw ((eq_iff entry.0 key).0 e) h in rw apart refl)
    | inr e ↦ rw e (
        ap (λ found. if str_eq entry.0 other then some entry.1 else found)
          (lookup-insert_other key other value entries h))
  ]
