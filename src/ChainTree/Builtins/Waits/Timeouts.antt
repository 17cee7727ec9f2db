-- ===== src/ChainTree/Builtins/Waits/Timeouts.antt =====
-- When a wait times out.
use robot_person.Base.{
  ℕ, ◌+◌, ◌==◌, ◌≡◌, ◌<◌, refl, sym, ap, ◌∙◌, String, Bool, true, false, none, some, List, [], ◌∷◌,
  ltb, lt→ltb, str_eq, eq_iff, Bool-cases, inl, inr, if◌then◌else◌, arith,
}
use mathlib.Core.Path.{subst⁻¹}
use robot_person.ChainTree.Codes.{CflCode, cfl_halt, cfl_reset, cfl_terminate}
use robot_person.ChainTree.Values.{Event}
use robot_person.ChainTree.State.{
  World, Kb, NodeData, Result, ok, pure, get_data, modify_data, update_self, update, ◌>>=◌, >>=-ok,
}
use robot_person.ChainTree.Node.{Program}
use robot_person.ChainTree.Builtins.{ask, escalate, fire, is_set}
use robot_person.ChainTree.Builtins.Waits.{count_timeout, cfl_wait_main}

abbrev one_if : Bool → ℕ
one_if true = 1
one_if false = 0

-- how many events have an id
abbrev pub num_with_id : String → List Event → ℕ
num_with_id id [] = 0
num_with_id id (e ∷ es) = one_if (str_eq e.event_id id) + num_with_id id es

-- CFL_HALT for each event
abbrev pub halts : List Event → List (Result CflCode)
halts [] = []
halts (e ∷ es) = ok cfl_halt ∷ halts es

-- `node["data"]` after some events of the timeout
abbrev with_count : NodeData → ℕ → NodeData
with_count d n = record d { timeout_count = d.timeout_count + n }

-- the node's key `timeout_count`, written
abbrev counted : ℕ → ℕ → World → World
counted i n s = record s {
  node_data = update s.node_data i (record (s.node_data i) { timeout_count = n });
}

module _ (p : Program) (kb : Kb) (i : ℕ) where
  -- `cfl_wait_main` without a boolean function, on one event after the other: what it returned
  unfoldable pub wait_all : List Event → World → List (Result CflCode) × World
  wait_all [] s = ([], s)
  wait_all (e ∷ es) s =
      let (r, t) = cfl_wait_main p kb none i e s in let (rs, u) = wait_all es t in (r ∷ rs, u)

  other_event :
      (e : Event) (s : World)
      → str_eq e.event_id (s.node_data i).timeout_event_id ≡ false
      → cfl_wait_main p kb none i e s ≡ (ok cfl_halt, s)
  unfolding cfl_wait_main ask count_timeout pure get_data modify_data ◌>>=◌ if◌then◌else◌
  other_event e s h = elim (Bool-cases ((s.node_data i).timeout == 0)) [
    | inl z ↦ rw z refl
    | inr z ↦ rw z (rw h refl)
  ]

  early_event :
      (e : Event) (s : World)
      → str_eq e.event_id (s.node_data i).timeout_event_id ≡ true
      → ((s.node_data i).timeout == 0) ≡ false
      → ltb ((s.node_data i).timeout_count + 1) (s.node_data i).timeout ≡ true
      → cfl_wait_main p kb none i e s
        ≡ (ok cfl_halt, counted i ((s.node_data i).timeout_count + 1) s)
  unfolding cfl_wait_main ask count_timeout pure get_data modify_data ◌>>=◌ if◌then◌else◌
  early_event e s h z l = rw z (rw h (rw l refl))

  last_event :
      (e : Event) (s : World)
      → str_eq e.event_id (s.node_data i).timeout_event_id ≡ true
      → ((s.node_data i).timeout == 0) ≡ false
      → ltb ((s.node_data i).timeout_count + 1) (s.node_data i).timeout ≡ false
      → cfl_wait_main p kb none i e s
        ≡ escalate p kb i (counted i ((s.node_data i).timeout_count + 1) s)
  unfolding cfl_wait_main ask count_timeout pure get_data modify_data ◌>>=◌ if◌then◌else◌
  last_event e s h z l = rw z (rw h (rw l refl))

  abbrev Waited : NodeData → List Event → List (Result CflCode) × World → Type 0
  Waited d es o =
      (o.0 ≡ halts es) × (o.1.node_data i ≡ with_count d (num_with_id d.timeout_event_id es))

  after_first :
      (e : Event) (es : List Event) (d : NodeData) (k : ℕ) (o : Result CflCode × World) (t : World)
      → o ≡ (ok cfl_halt, t)
      → k + num_with_id d.timeout_event_id es ≡ num_with_id d.timeout_event_id (e ∷ es)
      → Waited (with_count d k) es (wait_all es t)
      → Waited d (e ∷ es) (o.0 ∷ (wait_all es o.1).0, (wait_all es o.1).1)
  after_first e es d k o t run n (codes, final) =
      subst⁻¹ (λ v. Waited d (e ∷ es) (v.0 ∷ (wait_all es v.1).0, (wait_all es v.1).1)) run
        (
          ap (λ l. ok cfl_halt ∷ l) codes,
          final ∙ ap (λ m. record d { timeout_count = m }) (omega (arith, n)),
        )

  with_count_zero : (d : NodeData) → with_count d 0 ≡ d
  with_count_zero d =
      ap (λ n. record d { timeout_count = n })
        (let e : d.timeout_count + 0 ≡ d.timeout_count = omega arith in e)

  wait_all-halts :
      (es : List Event) (s : World) (d : NodeData)
      → s.node_data i ≡ d
      → d.timeout_count + num_with_id d.timeout_event_id es < d.timeout
      → Waited d es (wait_all es s)
  unfolding wait_all
  wait_all-halts [] s d same h = (refl, same ∙ sym (with_count_zero d))
  wait_all-halts (e ∷ es) s d same h = elim (Bool-cases (str_eq e.event_id d.timeout_event_id)) [
    | inl hit ↦
        let rest = num_with_id d.timeout_event_id es in
        let n : 1 + rest ≡ num_with_id d.timeout_event_id (e ∷ es) =
          ap (λ b. one_if b + rest) (sym hit) in
        let some_left : (d.timeout == 0) ≡ false = ground (arith, n) in
        let early : ltb (d.timeout_count + 1) d.timeout ≡ true = lt→ltb _ _ (omega (arith, n)) in
        after_first e es d 1 (cfl_wait_main p kb none i e s)
          (counted i ((s.node_data i).timeout_count + 1) s)
          (early_event e s (rw same hit) (rw same some_left) (rw same early)) n
          (wait_all-halts es _ (with_count d 1)
            (update_self s.node_data i _ ∙ ap (λ x. with_count x 1) same) (omega (arith, n)))
    | inr miss ↦
        let rest = num_with_id d.timeout_event_id es in
        let n : 0 + rest ≡ num_with_id d.timeout_event_id (e ∷ es) =
          ap (λ b. one_if b + rest) (sym miss) in
        after_first e es d 0 (cfl_wait_main p kb none i e s) s (other_event e s (rw same miss)) n
          (wait_all-halts es s (with_count d 0) (same ∙ sym (with_count_zero d)) (omega (arith, n)))
  ]

  fire-unset :
      (name : String) (s : World) → is_set (some name) ≡ false → fire p name kb i s ≡ (ok tt, s)
  unfolding fire pure if◌then◌else◌
  fire-unset name s h = rw h refl

  escalate-code :
      (s : World) (d : NodeData)
      → s.node_data i ≡ d
      → is_set (some d.error_fn) ≡ false
      → (escalate p kb i s).0 ≡ ok (if d.reset_flag then cfl_reset else cfl_terminate)
  unfolding escalate fire pure get_data ◌>>=◌ if◌then◌else◌
  escalate-code s d same h =
      let unset : is_set (some (s.node_data i).error_fn) ≡ false = rw same h in
      ap (λ (o : Result CflCode × World). o.0)
        (>>=-ok (fire p (s.node_data i).error_fn kb i) _
          (fire-unset (s.node_data i).error_fn s unset))
      ∙ ap (λ (x : NodeData). ok (if x.reset_flag then cfl_reset else cfl_terminate)) same

-- A wait without a boolean function and without an error function, with a timeout, halts on every
-- event while fewer events with its timeout_event_id have come than the timeout says, counting those
-- of before; other events do not count. On the next of them, which makes the number complete, it
-- gives CFL_RESET or CFL_TERMINATE, as its reset_flag says.
pub wait_all-times_out :
    (p : Program) (kb : Kb) (i : ℕ) (es : List Event) (e : Event) (s : World)
    → let d = s.node_data i in
      is_set (some d.error_fn) ≡ false
      → d.timeout_count + num_with_id d.timeout_event_id es + 1 ≡ d.timeout
      → e.event_id ≡ d.timeout_event_id
      → ((wait_all p kb i es s).0 ≡ halts es)
        × ((cfl_wait_main p kb none i e (wait_all p kb i es s).1).0
            ≡ ok (if d.reset_flag then cfl_reset else cfl_terminate))
wait_all-times_out p kb i es e s quiet n same =
    let d = s.node_data i in
    let (codes, final) = wait_all-halts p kb i es s d refl (omega arith) in
    let u = (wait_all p kb i es s).1 in
    let m = num_with_id d.timeout_event_id es in
    let hit : str_eq e.event_id d.timeout_event_id ≡ true =
      (eq_iff e.event_id d.timeout_event_id).1 same in
    let some_left : (d.timeout == 0) ≡ false = ground (arith, n) in
    let last : ltb (d.timeout_count + m + 1) d.timeout ≡ false = ground (arith, n) in
    (
      codes,
      ap (λ (o : Result CflCode × World). o.0)
            (last_event p kb i e u (rw final hit) (rw final some_left) (rw final last))
          ∙ escalate-code p kb i (counted i ((u.node_data i).timeout_count + 1) u)
              (with_count (with_count d m) 1)
              (update_self u.node_data i _ ∙ ap (λ x. with_count x 1) final) quiet,
    )
