-- ===== src/SEngine/Flow/Fork/Joined.antt =====
-- What the code of a fork_join says of its children.
use robot_person.Base.{
  ℕ, ◌+◌, ◌≡◌, ◌≢◌, ◌<◌, ◌↔◌, ◌⊎◌, refl, inl, inr, String, Bool, true, false, ◌&&◌, Option, none,
  some, List, [], ◌∷◌, All, ◌==◌, ==_iff, ltb, ltb→lt, str_eq, Bool-cases, if◌then◌else◌, arith,
}
use robot_person.SEngine.Codes.{
  Code, event_init, event_terminate, se_function_halt, se_pipeline_continue, se_pipeline_disable,
}
use robot_person.SEngine.State.{
  State, EventData, Result, ok, raised, Action, pure, and_then, ◌>>=◌, >>=-eq-ok, get_cell,
}
use robot_person.SEngine.Handle.{Handle, is_m_call}
use robot_person.SEngine.Flow.Fork.{
  halt_to_pipeline, fork_tick_children, count_active_main, or_early, se_fork_join,
}

module _ {A : Type 0} (P : A → Type 0) where
  abbrev pub Holds : Result A → Type 0
  Holds (ok a) = P a
  Holds (raised x) = Unit

  -- the value that an action returns, if it returns, satisfies P
  abbrev pub Post : Action A → Type 0
  Post m = (s : State) → Holds (m s).0

  Post-pure : (a : A) → P a → Post (pure a)
  unfolding pure
  Post-pure a p s = p

  Post-if :
      (b : Bool) (m n : Action A)
      → (b ≡ true → Post m)
      → (b ≡ false → Post n)
      → Post (if b then m else n)
  unfolding if◌then◌else◌
  Post-if true m n p q = p refl
  Post-if false m n p q = q refl

  Post->>= :
      {B : Type 0} (m : Action B) (f : B → Action A) → ((b : B) → Post (f b)) → Post (m >>= f)
  unfolding ◌>>=◌
  Post->>= {B = B} m f p s = next (m s)
    where
      next : (o : Result B × State) → Holds (and_then o.0 f o.1).0
      next (ok b, t) = p b t
      next (raised x, t) = tt

-- a code that leaves the fork at once: no pipeline code, and no FUNCTION_HALT
abbrev pub IsEarly : Code → Type 0
IsEarly r = (r < se_pipeline_continue) × (r ≢ se_function_halt)

abbrev Early : Option Code → Type 0
Early none = Unit
Early (some r) = IsEarly r

halt_to_pipeline-IsEarly :
    (r : Code) → ltb (halt_to_pipeline r) se_pipeline_continue ≡ true → IsEarly (halt_to_pipeline r)
unfolding if◌then◌else◌
halt_to_pipeline-IsEarly r low = (ltb→lt _ _ low, ground arith)

fork_tick_children-Early :
    (hs : List Handle) (e : String) (d : EventData) → Post Early (fork_tick_children hs e d)
unfolding fork_tick_children
fork_tick_children-Early [] e d = Post-pure Early none tt
fork_tick_children-Early (h ∷ hs) e d =
    let ih = fork_tick_children-Early hs e d in
    Post-if Early (is_m_call h.call_type) _ _
      (λ main. Post->>= Early _ _ λ c.
        Post-if Early c.active _ _
          (λ on. Post->>= Early _ _ λ r.
            Post-if Early (ltb (halt_to_pipeline r) se_pipeline_continue) _ _
              (λ low. Post-pure Early (some (halt_to_pipeline r)) (halt_to_pipeline-IsEarly r low))
              (λ high.
                Post-if Early _ _ _ (λ ended. Post->>= Early _ _ λ _. ih)
                  (λ others.
                    Post-if Early _ _ _
                      (λ reset. Post->>= Early _ _ λ _. Post->>= Early _ _ λ _. ih)
                      (λ rest.
                        Post-if Early _ _ _ (λ skip. Post-pure Early none tt) (λ goes_on. ih)))))
          (λ off. ih))
      (λ other. Post->>= Early _ _ λ _. ih)

-- no m_call among the children is active
abbrev pub NoActiveMain : List Handle → State → Type 0
NoActiveMain hs t = All (λ h. (is_m_call h.call_type && (t.cells h.id).active) ≡ false) hs

count_active_main-zero :
    (hs : List Handle) (t : State)
    → (n : ℕ) × (count_active_main hs t ≡ (ok n, t)) × ((n ≡ 0) ↔ NoActiveMain hs t)
unfolding count_active_main pure get_cell ◌>>=◌ if◌then◌else◌
count_active_main-zero [] t = (0, refl, ((λ z. tt), (λ k. refl)))
count_active_main-zero (h ∷ hs) t =
    let (n, p, k) = count_active_main-zero hs t in
    elim (Bool-cases (is_m_call h.call_type && (t.cells h.id).active)) [
      | inl busy ↦ (n + 1, rw (p, busy) refl, ((λ z. absurd (omega arith)), (λ w. absurd cc)))
      | inr quiet ↦ (n, rw (p, quiet) refl, ((λ z. (quiet, k.0 z)), (λ w. k.1 w.1)))
    ]

-- the end of the tick, once no child's code has left it
abbrev joined : List Handle → Action Code
joined hs = do
  n ← count_active_main hs
  pure (if n == 0 then se_pipeline_disable else se_function_halt)

not_zero : (n : ℕ) → (n == 0) ≡ false → n ≡ 0 → ⊥
not_zero n p q = ground arith

joined-end :
    (hs : List Handle) (s t : State) (c : Code)
    → joined hs s ≡ (ok c, t)
    → ((c ≡ se_pipeline_disable) × NoActiveMain hs t)
      ⊎ ((c ≡ se_function_halt) × (NoActiveMain hs t → ⊥))
unfolding pure ◌>>=◌ if◌then◌else◌
joined-end hs s t c p =
    let (n, counted, k) = count_active_main-zero hs s in
    let q = rw counted at p in
    let same : s ≡ t = cc in
    elim (Bool-cases (n == 0)) [
      | inl none_left ↦
          let q' = rw none_left at q in inl (cc, rw same at (k.0 ((==_iff n 0).0 none_left)))
      | inr some_left ↦
          let q' = rw some_left at q in inr (cc, λ w. not_zero n some_left (k.1 (rw (← same) at w)))
    ]

-- A `se_fork_join` that returns on an event other than INIT and TERMINATE does so for one of three
-- reasons: a child's code, which is no pipeline code and no SE_FUNCTION_HALT; SE_PIPELINE_DISABLE, and
-- then no m_call child is active; or SE_FUNCTION_HALT, and then some m_call child is.
pub se_fork_join-joined :
    (hs : List Handle) (e : String) (d : EventData) (s t : State) (c : Code)
    → str_eq e event_init ≡ false
    → str_eq e event_terminate ≡ false
    → se_fork_join hs e d s ≡ (ok c, t)
    → IsEarly c
      ⊎ ((c ≡ se_pipeline_disable) × NoActiveMain hs t)
      ⊎ ((c ≡ se_function_halt) × (NoActiveMain hs t → ⊥))
unfolding se_fork_join pure if◌then◌else◌ ◌>>=◌
se_fork_join-joined hs e d s t c ni nt p =
    let run = rw (ni, nt) at p in
    let (early, u, p1, q) = >>=-eq-ok (fork_tick_children hs e d) _ s t run in
    by_early early u (rw p1 at (fork_tick_children-Early hs e d s)) q
  where
    by_early :
        (early : Option Code) (u : State)
        → Early early
        → or_early early (joined hs) u ≡ (ok c, t)
        → IsEarly c
          ⊎ ((c ≡ se_pipeline_disable) × NoActiveMain hs t)
          ⊎ ((c ≡ se_function_halt) × (NoActiveMain hs t → ⊥))
    by_early (some r) u h q = let same : r ≡ c = cc in inl (rw same at h)
    by_early none u h q = inr (joined-end hs u t c q)
