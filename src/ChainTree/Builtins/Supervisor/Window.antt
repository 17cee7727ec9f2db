-- ===== src/ChainTree/Builtins/Supervisor/Window.antt =====
-- The failures that count against a supervisor are those of its window.
use robot_person.Base.{
  ℕ, ◌+◌, ◌≡◌, ◌≤◌, refl, ap, List, [], ◌∷◌, All, length, ltb, leb, Bool-cases, inl, inr, arith,
}
use robot_person.ChainTree.State.{World, SupervisorState, ok, pure, modify_control, ◌>>=◌}
use robot_person.ChainTree.Node.{Program, select}
use robot_person.ChainTree.Engine.MainLoop.{read_time}
use robot_person.ChainTree.Builtins.Supervisor.{
  purge, modify_supervisor, get_failure_count, is_threshold_exceeded,
}

-- the oldest failure stands first
abbrev pub IsChronological : List ℕ → Type 0
IsChronological [] = Unit
IsChronological (t ∷ ts) = All (λ u. t ≤ u) ts × IsChronological ts

-- the failures that are at most `window` old
abbrev pub recent : (window now : ℕ) → List ℕ → List ℕ
recent window now failures = select (λ t. leb now (t + window)) failures

recent-All :
    (window now : ℕ) (t : ℕ) (ts : List ℕ)
    → now ≤ t + window
    → All (λ u. t ≤ u) ts
    → recent window now ts ≡ ts
recent-All window now t [] h a = refl
recent-All window now t (u ∷ us) h (le, a) = ground (arith, recent-All window now t us h a)

purge-recent :
    (window now : ℕ) (ts : List ℕ) → IsChronological ts → purge window now ts ≡ recent window now ts
purge-recent window now [] c = refl
purge-recent window now (t ∷ ts) (a, c) = elim (Bool-cases (ltb (t + window) now)) [
  | inl old ↦ ground (arith, purge-recent window now ts c)
  | inr young ↦
      let within : now ≤ t + window = ground arith in
      ground (arith, recent-All window now t ts within a)
]

-- The test of the restart limit, over failures in the order of their times: it counts those that are
-- at most as old as the supervisor's window at the time of the test.
pub is_threshold_exceeded-recent :
    (p : Program) (i : ℕ) (state : SupervisorState) (max_n : ℕ) (s : World)
    → IsChronological state.failures
    → let now = p.get_time s.time_reads in
      (is_threshold_exceeded p i state max_n s).0
      ≡ ok (leb max_n (length (recent state.window now state.failures)))
unfolding is_threshold_exceeded get_failure_count read_time modify_supervisor modify_control pure
    ◌>>=◌
is_threshold_exceeded-recent p i state max_n s c =
    ap (λ l. ok (leb max_n (length l)))
      (purge-recent state.window (p.get_time s.time_reads) state.failures c)
