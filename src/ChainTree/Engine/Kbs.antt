-- ===== src/ChainTree/Engine/Kbs.antt =====
-- chain_tree/ct_runtime/engine.py: registering, activating and deleting KBs. A KB is a dict; two of
-- the same name and root are the same one here.
pub mod Laws
use robot_person.Base.{
  ℕ, ◌==◌, String, Bool, true, false, ◌&&◌, ◌||◌, Option, none, some, List, [], ◌∷◌, ◌++◌, str_eq,
  lookup, insert, if◌then◌else◌,
}
use robot_person.ChainTree.State.{
  World, Kb, value_error, Action, pure, raise, gets, modify, update, ◌>>=◌, ◌>>◌,
}
use robot_person.ChainTree.Node.{Program, walk_ancestors}
use robot_person.ChainTree.Engine.{enable_node, terminate_node_tree}

abbrev pub same_kb : Kb → Kb → Bool
same_kb a b = str_eq a.name b.name && a.root == b.root

-- `kb in engine["active_kbs"]`
abbrev pub is_active : Kb → List Kb → Bool
is_active kb [] = false
is_active kb (k ∷ ks) = same_kb k kb || is_active kb ks

-- `engine["active_kbs"].remove(kb)`: the first one goes
abbrev pub remove_kb : Kb → List Kb → List Kb
remove_kb kb [] = []
remove_kb kb (k ∷ ks) = elim (same_kb k kb) [ true ↦ ks | false ↦ k ∷ remove_kb kb ks ]

-- the entry of a new KB, and the reference on its root
abbrev pub put_kb : Kb → World → World
put_kb kb s = record s { kbs = insert kb.name kb s.kbs; kb_ref = update s.kb_ref kb.root (some kb) }

abbrev put_new : Option Kb → Kb → Action (Unit {0})
put_new (some old) kb = raise value_error
put_new none kb = modify (put_kb kb)

unfoldable pub add_kb : Kb → Action (Unit {0})
add_kb kb = do old ← gets (λ s. lookup kb.name s.kbs); put_new old kb

unfoldable pub activate : Option Kb → Action Kb
activate none = raise value_error
activate (some kb) = do
  active ← gets (λ s. is_active kb s.active_kbs)
  if active then pure kb else do
    enable_node kb.root
    modify (λ s. record s { active_kbs = s.active_kbs ++ kb ∷ [] })
    pure kb

unfoldable pub activate_kb : String → Action Kb
activate_kb name = do kb ← gets (λ s. lookup name s.kbs); activate kb

abbrev has_any : List Kb → Bool
has_any [] = false
has_any (k ∷ ks) = true

unfoldable pub has_active_kbs : World → Bool
has_active_kbs s = has_any s.active_kbs

module _ (p : Program) where
  unfoldable pub delete_kb : Kb → Action (Unit {0})
  delete_kb kb = do
    terminate_node_tree p kb kb.root
    active ← gets (λ s. is_active kb s.active_kbs)
    if active then modify (λ s. record s { active_kbs = remove_kb kb s.active_kbs }) else pure tt

  -- `_kb` of the first of the ancestors that has no parent
  abbrev first_root : List ℕ → World → Option Kb
  first_root [] s = none
  first_root (i ∷ is) s = elim (p.nodes i).parent [
    | none ↦ s.kb_ref i
    | some parent ↦ first_root is s
  ]

  unfoldable pub kb_of : ℕ → World → Option Kb
  kb_of i s = elim (p.nodes i).parent [
    | none ↦ s.kb_ref i
    | some parent ↦ first_root (walk_ancestors p i) s
  ]
