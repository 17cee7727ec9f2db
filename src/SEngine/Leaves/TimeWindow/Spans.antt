-- ===== src/SEngine/Leaves/TimeWindow/Spans.antt =====
-- The test of one field of a window, against its meaning on the circle of the field's values.
use robot_person.Base.{
  ℕ, ◌+◌, ◌-◌, ◌%◌, ◌≡◌, ◌≤◌, ◌<◌, leb, if◌then◌else◌, Bool-cases, inl, inr, ◌∙◌, arith,
}
use native.Mathlib.Nat.{mod-eq_of_lt, mod-eq-sub-mod}
use robot_person.SEngine.Leaves.TimeWindow.{span_contains}

-- how far `v` lies behind `start_v`, going round a circle of `n` values
unfoldable pub steps_from : ℕ → ℕ → ℕ → ℕ
steps_from n start_v v = (v + n - start_v) % n

steps_from-ge : (n a v : ℕ) → v < n → a ≤ v → steps_from n a v ≡ v - a
unfolding steps_from
steps_from-ge n a v p q =
    let rest : v + n - a - n ≡ v - a = omega arith in
    mod-eq-sub-mod {n = v + n - a} {m = n} (omega arith) ∙ rw rest (mod-eq_of_lt (omega arith))

steps_from-lt : (n a v : ℕ) → a < n → v < a → steps_from n a v ≡ v + n - a
unfolding steps_from
steps_from-lt n a v p q = mod-eq_of_lt (omega arith)

-- For values of a circle of `n`, the test of a window's field, with its wrap-around, is that the
-- current value is met on the way round from the start no later than the end.
pub span_contains-steps_from :
    (n current start_v end_v : ℕ)
    → current < n
    → start_v < n
    → end_v < n
    → span_contains current start_v end_v
      ≡ leb (steps_from n start_v current) (steps_from n start_v end_v)
unfolding span_contains if◌then◌else◌
span_contains-steps_from n c a b p q r = elim (Bool-cases (leb a c)) [
  | inl ac ↦ elim (Bool-cases (leb a b)) [
    | inl ab ↦ ground (arith, steps_from-ge n a c, steps_from-ge n a b)
    | inr ab ↦ ground (arith, steps_from-ge n a c, steps_from-lt n a b)
  ]
  | inr ac ↦ elim (Bool-cases (leb a b)) [
    | inl ab ↦ ground (arith, steps_from-lt n a c, steps_from-ge n a b)
    | inr ab ↦ ground (arith, steps_from-lt n a c, steps_from-lt n a b)
  ]
]
