-- ===== src/SEngine/Leaves/Pred/Logic.antt =====
-- The composite predicates over children that answer without an effect: plain logic.
use robot_person.Base.{
  ℕ, ◌+◌, ◌%◌, ◌≡◌, refl, Bool, true, false, not, ◌&&◌, ◌||◌, List, [], ◌∷◌, ◌==◌, if◌then◌else◌,
  arith,
}
use robot_person.SEngine.State.{State, ok, ◌>>=◌}
use robot_person.SEngine.Handle.{Handle}
use robot_person.SEngine.Leaves.Pred.{pred_and, pred_or, pred_nor, pred_nand, count_true, pred_xor}

-- the children answer with these values, whatever the state, and change nothing
abbrev pub Answer : List Handle → List Bool → Type 0
Answer [] [] = Unit
Answer (h ∷ hs) (b ∷ bs) = ((s : State) → h.call s ≡ (ok b, s)) × Answer hs bs
Answer _ _ = ⊥

unfoldable pub all_true : List Bool → Bool
all_true [] = true
all_true (b ∷ bs) = b && all_true bs

unfoldable pub any_true : List Bool → Bool
any_true [] = false
any_true (b ∷ bs) = b || any_true bs

-- exclusive or, from the right
unfoldable pub odd_true : List Bool → Bool
odd_true [] = false
odd_true (b ∷ bs) = if b then not (odd_true bs) else odd_true bs

pred_and-all :
    (hs : List Handle) (bs : List Bool) (s : State)
    → Answer hs bs
    → pred_and hs s ≡ (ok (all_true bs), s)
unfolding pred_and all_true ◌>>=◌
pred_and-all [] [] s a = refl
pred_and-all [] (b ∷ bs) s a = absurd a
pred_and-all (h ∷ hs) [] s a = absurd a
pred_and-all (h ∷ hs) (b ∷ bs) s a = ground (arith, a.0 s, pred_and-all hs bs s a.1)

pred_or-any :
    (hs : List Handle) (bs : List Bool) (s : State)
    → Answer hs bs
    → pred_or hs s ≡ (ok (any_true bs), s)
unfolding pred_or any_true ◌>>=◌
pred_or-any [] [] s a = refl
pred_or-any [] (b ∷ bs) s a = absurd a
pred_or-any (h ∷ hs) [] s a = absurd a
pred_or-any (h ∷ hs) (b ∷ bs) s a = ground (arith, a.0 s, pred_or-any hs bs s a.1)

unfoldable pub count_of_true : List Bool → ℕ
unfolding if◌then◌else◌
count_of_true [] = 0
count_of_true (b ∷ bs) = if b then count_of_true bs + 1 else count_of_true bs

count_true-count :
    (hs : List Handle) (bs : List Bool) (n : ℕ) (s : State)
    → Answer hs bs
    → count_true n hs s ≡ (ok (n + count_of_true bs), s)
unfolding count_true count_of_true ◌>>=◌
count_true-count [] [] n s a = ground arith
count_true-count [] (b ∷ bs) n s a = absurd a
count_true-count (h ∷ hs) [] n s a = absurd a
count_true-count (h ∷ hs) (true ∷ bs) n s a =
    ground (arith, a.0 s, count_true-count hs bs (n + 1) s a.1)
count_true-count (h ∷ hs) (false ∷ bs) n s a = ground (arith, a.0 s, count_true-count hs bs n s a.1)

count-odd : (bs : List Bool) → (count_of_true bs % 2 == 1) ≡ odd_true bs
unfolding count_of_true odd_true if◌then◌else◌
count-odd [] = refl
count-odd (true ∷ bs) = ground (arith, count-odd bs)
count-odd (false ∷ bs) = count-odd bs

-- Over children that answer without an effect, the composite predicates are conjunction,
-- disjunction, their negations and exclusive or, and they change nothing.
pub composite_logic :
    (hs : List Handle) (bs : List Bool) (s : State)
    → Answer hs bs
    → (pred_and hs s ≡ (ok (all_true bs), s))
      × (pred_or hs s ≡ (ok (any_true bs), s))
      × (pred_nand hs s ≡ (ok (not (all_true bs)), s))
      × (pred_nor hs s ≡ (ok (not (any_true bs)), s))
      × (pred_xor hs s ≡ (ok (odd_true bs), s))
unfolding pred_nand pred_nor pred_xor ◌>>=◌
composite_logic hs bs s a = (
  pred_and-all hs bs s a,
  pred_or-any hs bs s a,
  rw (pred_and-all hs bs s a),
  rw (pred_or-any hs bs s a),
  rw (count_true-count hs bs 0 s a) (ground (arith, count-odd bs)),
)
