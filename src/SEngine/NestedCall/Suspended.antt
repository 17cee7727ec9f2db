-- ===== src/SEngine/NestedCall/Suspended.antt =====
-- What becomes of a called tree by the code that it returns.
use robot_person.Base.{
  ℕ, ◌≡◌, ◌⊎◌, refl, sym, ap, String, true, false, Option, none, some, str_eq, if◌then◌else◌,
  Bool-cases, inl, inr, arith,
}
use robot_person.SEngine.Codes.{
  Code, event_init, event_terminate, is_application, is_function, variant, to_pipeline,
}
use robot_person.SEngine.State.{State, EventData, Result, ok, raised}
use robot_person.SEngine.NestedCall.{
  Trees, CallParams, Child, CallState, drops, translate, fresh_child, after_run, run_child,
  run_or_fresh, se_call_tree, keep_or_drop, leave_child,
}

translate-function : (c : Code) → is_function (translate c) ≡ false
unfolding translate is_application is_function to_pipeline variant if◌then◌else◌
translate-function c = ground arith

-- what is left of the child behind a code: nothing, or an instance
abbrev pub Left : Code → CallState → Type 0
Left c st =
    ((drops c ≡ true) × (st.user_data ≡ some none))
    ⊎ ((drops c ≡ false) × ((k : Child) × (st.user_data ≡ some (some k))))

keep_or_drop-Left :
    (c : Code) (k : Child) (st : CallState) → st.user_data ≡ keep_or_drop (drops c) k → Left c st
unfolding if◌then◌else◌
keep_or_drop-Left c k st p = elim (Bool-cases (drops c)) [
  | inl gone ↦ inl (gone, rw gone at p)
  | inr kept ↦ inr (kept, (k, rw kept at p))
]

after_run-Left :
    (k : Child) (s : State) (o : Result (Option Code) × State) (c : Code) (st : CallState)
    → after_run k s o ≡ (ok (some c), st)
    → (is_function c ≡ false) × Left c st
unfolding after_run
after_run-Left k s (raised e, t) c st p = absurd cc
after_run-Left k s (ok none, t) c st p = absurd cc
after_run-Left k s (ok (some r), t) c st p =
    let same : translate r ≡ c = cc in
    let held : st.user_data ≡ keep_or_drop (drops (translate r)) (leave_child k t) =
      ap (λ o. o.1.user_data) (sym p) in
    (rw same at (translate-function r), keep_or_drop-Left c (leave_child k t) st (rw same at held))

run_or_fresh-Left :
    (fuel : ℕ) (e : String) (d : EventData) (o : Option Child) (fresh : Result Child)
    (st st' : CallState) (c : Code)
    → run_or_fresh fuel e d o fresh st ≡ (ok (some c), st')
    → (is_function c ≡ false) × Left c st'
unfolding run_or_fresh run_child
run_or_fresh-Left fuel e d (some k) fresh st st' c p = after_run-Left k st.state _ c st' p
run_or_fresh-Left fuel e d none (raised x) st st' c p = absurd cc
run_or_fresh-Left fuel e d none (ok k) st st' c p = after_run-Left k st.state _ c st' p

-- On an event between INIT and TERMINATE, the code that `se_call_tree` returns is no function code.
-- The child is dropped exactly for a code that is neither SE_PIPELINE_CONTINUE nor an application's,
-- so for SE_PIPELINE_HALT too; and the next event then runs a fresh child, whatever the event.
pub se_call_tree-fresh :
    (fuel : ℕ) (trees : Trees) (params : CallParams) (e f : String) (d g : EventData)
    (st st' : CallState) (c : Code) (k : Child)
    → str_eq e event_init ≡ false
    → str_eq e event_terminate ≡ false
    → str_eq f event_init ≡ false
    → str_eq f event_terminate ≡ false
    → fresh_child trees params ≡ ok k
    → se_call_tree fuel trees params e d st ≡ (ok (some c), st')
    → (is_function c ≡ false)
      × Left c st'
      × (drops c ≡ true
          → se_call_tree fuel trees params f g st'
            ≡ se_call_tree fuel trees params f g (record st' { user_data = some (some k) }))
unfolding se_call_tree run_or_fresh if◌then◌else◌
se_call_tree-fresh fuel trees params e f d g st st' c k ni nt fi ft fresh p =
    let run = rw (ni, nt) at p in
    let (plain, left) = run_or_fresh-Left fuel e d _ _ st st' c run in
    (
      plain,
      left,
      λ gone. elim left [
        | inl (_, dropped) ↦ rw (fi, ft, dropped, fresh) refl
        | inr (kept, _) ↦ absurd cc
      ],
    )
