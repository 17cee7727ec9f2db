-- ===== src/ChainTree/Walker.antt =====
-- chain_tree/ct_runtime/walker.py: the iterative depth-first walk. An iterator over children is the
-- list of those that are left; the stack has the innermost level first.
pub mod Recursive
use robot_person.Base.{ℕ, zero, suc, List, [], ◌∷◌, length, if◌then◌else◌}
use robot_person.ChainTree.Codes.{
  Signal, ct_continue, ct_skip_children, ct_stop_siblings, ct_stop_all,
}
use robot_person.ChainTree.State.{Stateful, pure, raise, out_of_fuel, ◌>>=◌}

-- `visit` with its event given, and `get_children`
module _ {S : Type 0} (visit : ℕ → ℕ → Stateful S Signal)
    (get_children : ℕ → Stateful S (List ℕ)) where
  -- what the walk does behind the visit of a node, over the siblings and the levels above
  abbrev pub after_visit :
      (List (List ℕ) → Stateful S (Unit {0}))
      → ℕ
      → List ℕ
      → List (List ℕ)
      → Signal
      → Stateful S (Unit {0})
  after_visit again node siblings levels ct_stop_all = pure tt
  after_visit again node siblings levels ct_stop_siblings = again levels
  after_visit again node siblings levels ct_skip_children = again (siblings ∷ levels)
  after_visit again node siblings levels ct_continue = do
    children ← get_children node
    again (children ∷ siblings ∷ levels)

  -- the loop `while stack`
  unfoldable pub walk_stack : ℕ → List (List ℕ) → Stateful S (Unit {0})
  walk_stack zero stack = raise out_of_fuel
  walk_stack (suc rounds) [] = pure tt
  walk_stack (suc rounds) ([] ∷ levels) = walk_stack rounds levels
  walk_stack (suc rounds) ((node ∷ siblings) ∷ levels) = do
    signal ← visit node (length ((node ∷ siblings) ∷ levels))
    after_visit (λ stack. walk_stack rounds stack) node siblings levels signal

  -- what follows the visit of the start node
  abbrev pub after_start : ℕ → ℕ → Signal → Stateful S (Unit {0})
  after_start rounds start ct_continue = do
    children ← get_children start
    walk_stack rounds (children ∷ [])
  after_start rounds start _ = pure tt

  unfoldable pub walk : ℕ → ℕ → Stateful S (Unit {0})
  walk rounds start = do signal ← visit start 0; after_start rounds start signal
