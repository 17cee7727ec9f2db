-- ===== src/ChainTree/Engine/Signals.antt =====
-- Which signal a visit gives for a code.
use robot_person.Base.{ℕ, ◌≡◌, sym, ap, ◌∙◌, Option, none, some}
use robot_person.ChainTree.Codes.{
  CflCode, cfl_continue, cfl_halt, cfl_terminate, cfl_reset, cfl_disable, cfl_skip_continue,
  cfl_terminate_system, unknown_code, code_to_signal, Signal, ct_continue, ct_stop_all,
}
use robot_person.ChainTree.Values.{Event}
use robot_person.ChainTree.State.{World, Kb, Result, ok, pure, >>=-eq-ok, ok_inj}
use robot_person.ChainTree.Node.{Program, MainFn}
use robot_person.ChainTree.Engine.{enable_node, terminate_node_tree, reset_parent, apply_code}

some_inj : {A : Type 0} {a b : A} → some a ≡ some b → a ≡ b
some_inj h = cc

-- the signal of a reset, by the parent of the node
abbrev reset_signal : Option ℕ → Signal
reset_signal none = ct_stop_all
reset_signal (some parent) = ct_continue

-- the signal of a visit, by the code, the parent of the node and the signal of the table
abbrev pub visit_signal : CflCode → Option ℕ → Signal → Signal
visit_signal cfl_reset none expected = ct_stop_all
visit_signal code parent expected = expected

same_result :
    {A : Type 0} {a b : A} {s t : World} → ◌≡◌ {A = Result A × World} (ok a, s) (ok b, t) → a ≡ b
same_result {A} e = ok_inj (ap (λ (o : Result A × World). o.0) e)

module _ (p : Program) (mains : ℕ → MainFn) (kb : Kb) (i : ℕ) where
  reset_parent-signal :
      (parent : Option ℕ) (s t : World) {given : Signal}
      → reset_parent p mains parent kb i s ≡ (ok given, t)
      → reset_signal parent ≡ given
  unfolding reset_parent pure
  reset_parent-signal none s t e =
      let (_, u, _, q) = >>=-eq-ok (terminate_node_tree p kb i) _ s t e in
      let (_, v, _, r) = >>=-eq-ok (enable_node i) _ u t q in same_result r
  reset_parent-signal (some parent) s t e =
      let (_, u, _, q) = >>=-eq-ok (terminate_node_tree p kb parent) _ s t e in
      let (_, v, _, r) = >>=-eq-ok (enable_node parent) _ u t q in same_result r

  -- For a code in the table of `code_to_signal`, a visit that returns gives the signal of the table,
  -- with one exception that the table does not know: CFL_RESET of a node without a parent always
  -- gives CT_STOP_ALL.
  pub apply_code-signal :
      (code : CflCode) (event : Event) (s t : World) (expected given : Signal)
      → code_to_signal code ≡ some expected
      → apply_code p mains code kb i event s ≡ (ok given, t)
      → given ≡ visit_signal code (p.nodes i).parent expected
  unfolding apply_code code_to_signal pure
  apply_code-signal cfl_continue event s t expected given c e = sym (same_result e) ∙ some_inj c
  apply_code-signal cfl_halt event s t expected given c e = sym (same_result e) ∙ some_inj c
  apply_code-signal cfl_skip_continue event s t expected given c e =
      sym (same_result e) ∙ some_inj c
  apply_code-signal cfl_disable event s t expected given c e =
      let (_, u, _, q) = >>=-eq-ok (terminate_node_tree p kb i) _ s t e in
      sym (same_result q) ∙ some_inj c
  apply_code-signal cfl_reset event s t expected given c e =
      by_parent (p.nodes i).parent (reset_parent-signal (p.nodes i).parent s t e)
    where
      by_parent :
          (parent : Option ℕ)
          → reset_signal parent ≡ given
          → given ≡ visit_signal cfl_reset parent expected
      by_parent none r = sym r
      by_parent (some parent) r = sym r ∙ some_inj c
  apply_code-signal cfl_terminate event s t expected given c e = cc
  apply_code-signal cfl_terminate_system event s t expected given c e = cc
  apply_code-signal (unknown_code text) event s t expected given c e = cc
