-- ===== src/ChainTree/Builtins/Column.antt =====
-- chain_tree/ct_builtins/column.py, control.py and verify.py.
use robot_person.Base.{ℕ, String, Bool, true, false, if◌then◌else◌}
use robot_person.ChainTree.Codes.{
  CflCode, cfl_continue, cfl_halt, cfl_disable, cfl_terminate, cfl_reset, cfl_terminate_system,
}
use robot_person.ChainTree.Values.{Datum}
use robot_person.ChainTree.State.{Kb, Action, pure, gets, ◌>>=◌}
use robot_person.ChainTree.Node.{Program, MainFn, any_enabled}
use robot_person.ChainTree.Builtins.{ask, enable_all, escalate}

module _ (p : Program) where
  -- `CFL_CONTINUE` while a child is enabled
  unfoldable pub scan_children : ℕ → Action CflCode
  scan_children i = do
    running ← gets (λ s. any_enabled s (p.nodes i).children)
    pure (if running then cfl_continue else cfl_disable)

  unfoldable pub cfl_column_main : MainFn
  cfl_column_main kb name i event = do
    early ← ask p false name kb i event
    if early then pure cfl_disable else scan_children i

  unfoldable pub cfl_column_init : Kb → ℕ → Action (Unit {0})
  cfl_column_init kb i = enable_all (p.nodes i).children

  unfoldable pub cfl_verify_main : MainFn
  cfl_verify_main kb name i event = do
    holds ← ask p true name kb i event
    if holds then pure cfl_continue else escalate p kb i

unfoldable pub cfl_column_term : Kb → ℕ → Action (Unit {0})
cfl_column_term kb i = pure tt

unfoldable pub cfl_continue_main : MainFn
cfl_continue_main kb name i event = pure cfl_continue

unfoldable pub cfl_halt_main : MainFn
cfl_halt_main kb name i event = pure cfl_halt

unfoldable pub cfl_disable_main : MainFn
cfl_disable_main kb name i event = pure cfl_disable

unfoldable pub cfl_terminate_main : MainFn
cfl_terminate_main kb name i event = pure cfl_terminate

unfoldable pub cfl_reset_main : MainFn
cfl_reset_main kb name i event = pure cfl_reset

unfoldable pub cfl_terminate_system_main : MainFn
cfl_terminate_system_main kb name i event = pure cfl_terminate_system

unfoldable pub cfl_null_boolean : Kb → ℕ → String → String → Datum → Action Bool
cfl_null_boolean kb i event_type event_id payload = pure false

unfoldable pub cfl_null_one_shot : Kb → ℕ → Action (Unit {0})
cfl_null_one_shot kb i = pure tt
