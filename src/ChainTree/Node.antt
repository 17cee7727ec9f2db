-- ===== src/ChainTree/Node.antt =====
-- chain_tree/ct_runtime/node.py: the node dict, its links, and the part of a program that no run
-- changes: the nodes with their links, what the user's functions do, and the clock.
use robot_person.Base.{ℕ, zero, suc, String, Bool, true, false, Option, none, some, List, [], ◌∷◌}
use robot_person.ChainTree.Codes.{CflCode}
use robot_person.ChainTree.Values.{Datum, Event}
use robot_person.ChainTree.State.{World, Stateful, Action, Kb, gets}

-- The keys of a node dict that are not written after `link_children`.
pub record Node : Type 0 where
  pub parent : Option ℕ
  pub children : List ℕ
  pub main_fn_name : Option String
  pub boolean_fn_name : Option String
  pub init_fn_name : Option String
  pub term_fn_name : Option String

-- What the callables of the registry do, the nodes, the clock (by the number of the reading), how
-- Python's `int` reads a text, and how many rounds a loop over the tree is given.
pub record Program : Type 0 where
  pub nodes : ℕ → Node
  pub boolean_fn : ℕ → Kb → ℕ → String → String → Datum → Action Bool
  pub one_shot_fn : ℕ → Kb → ℕ → Action (Unit {0})
  pub get_time : ℕ → ℕ
  pub parse_int : String → Option ℕ
  pub rounds : ℕ

abbrev pub MainFn : Type 0
MainFn = Kb → Option String → ℕ → Event → Action CflCode

-- the elements that pass a test, in their order
abbrev pub select {ℓ} : {A : Type ℓ} → (A → Bool) → List A → List A
select test [] = []
select test (x ∷ xs) = elim (test x) [ true ↦ x ∷ select test xs | false ↦ select test xs ]

abbrev pub is_enabled : World → ℕ → Bool
is_enabled s i = (s.control i).enabled

abbrev pub any_enabled : World → List ℕ → Bool
any_enabled s [] = false
any_enabled s (c ∷ cs) = elim (is_enabled s c) [ true ↦ true | false ↦ any_enabled s cs ]

-- the children of a node that are enabled, by a test of the state
abbrev pub enabled_links : {S : Type 0} → (S → ℕ → Bool) → Program → ℕ → Stateful S (List ℕ)
enabled_links is_enabled p i = gets (λ s. select (is_enabled s) (p.nodes i).children)

module _ (p : Program) where
  abbrev pub enabled_children : ℕ → Action (List ℕ)
  enabled_children = enabled_links is_enabled p

  abbrev is_empty : List ℕ → Bool
  is_empty [] = true
  is_empty (c ∷ cs) = false

  unfoldable pub is_leaf : ℕ → Bool
  is_leaf i = is_empty (p.nodes i).children

  -- the ancestors from the parent up, as far as the rounds reach
  unfoldable pub walk_up : ℕ → Option ℕ → List ℕ
  walk_up zero above = []
  walk_up (suc rounds) none = []
  walk_up (suc rounds) (some i) = i ∷ walk_up rounds (p.nodes i).parent

  unfoldable pub walk_ancestors : ℕ → List ℕ
  unfolding walk_up
  walk_ancestors i = walk_up p.rounds (p.nodes i).parent
