-- ===== src/ChainTree/Builtins/Machine/Start.antt =====
-- A state machine starts with exactly one of its states enabled.
use robot_person.Base.{
  ℕ, ◌≡◌, ◌==◌, refl, sym, ap, ◌∙◌, String, Bool, true, false, Option, none, some, List, [], ◌∷◌,
  All, get_elem?,
}
use mathlib.Core.Path.{subst}
use robot_person.ChainTree.State.{
  World, Kb, NodeData, Control, Result, ok, pure, raise, get_data, modify_data, modify_control,
  update_self, update-cases, ◌>>=◌, >>=-ok, raised-ne-ok,
}
use robot_person.ChainTree.Node.{Program, is_enabled}
use robot_person.ChainTree.Engine.{set_flags, enable_node}
use robot_person.ChainTree.Builtins.{clear_all}
use robot_person.ChainTree.Builtins.Machine.{
  index_of, set_state, enable_at, start_machine, cfl_state_machine_init,
}

clear-disables :
    (i j : ℕ) (s : World)
    → is_enabled s j ≡ false
    → is_enabled (modify_control i (set_flags false) s).1 j ≡ false
unfolding modify_control
clear-disables i j s h =
    update-cases s.control i (set_flags false (s.control i)) (λ c. c.enabled ≡ false) j refl h

-- what was disabled stays so while children are cleared
clear_all-keeps :
    (cs : List ℕ) (j : ℕ) (s : World)
    → is_enabled s j ≡ false
    → is_enabled (clear_all cs s).1 j ≡ false
unfolding clear_all pure modify_control ◌>>=◌
clear_all-keeps [] j s h = h
clear_all-keeps (c ∷ cs) j s h =
    clear_all-keeps cs j (modify_control c (set_flags false) s).1 (clear-disables c j s h)

clear_all-disables :
    (cs : List ℕ) (s : World) → All (λ c. is_enabled (clear_all cs s).1 c ≡ false) cs
unfolding clear_all pure modify_control ◌>>=◌
clear_all-disables [] s = tt
clear_all-disables (c ∷ cs) s =
    let t = (modify_control c (set_flags false) s).1 in
    (
      clear_all-keeps cs c t (
          ap (λ (d : Control). d.enabled)
            (update_self s.control c (set_flags false (s.control c)))),
      clear_all-disables cs t,
    )

clear_all-returns : (cs : List ℕ) (s : World) → (clear_all cs s).0 ≡ ok tt
unfolding clear_all pure modify_control ◌>>=◌
clear_all-returns [] s = refl
clear_all-returns (c ∷ cs) s = clear_all-returns cs (modify_control c (set_flags false) s).1

abbrev pick : Bool → Control → Control → Control
pick b new old = elim b [ true ↦ new | false ↦ old ]

chosen_flag :
    (b : Bool) (new old : Control)
    → new.enabled ≡ true
    → (b ≡ false → old.enabled ≡ false)
    → (pick b new old).enabled ≡ b
chosen_flag true new old on off = on
chosen_flag false new old on off = off refl

-- the nodes of a list that are not a node are disabled
abbrev pub OthersOff : ℕ → List ℕ → World → Type 0
OthersOff chosen cs s = All (λ c. (chosen == c) ≡ false → is_enabled s c ≡ false) cs

off-OthersOff :
    (chosen : ℕ) (cs : List ℕ) (s : World)
    → All (λ c. is_enabled s c ≡ false) cs
    → OthersOff chosen cs s
off-OthersOff chosen [] s h = tt
off-OthersOff chosen (c ∷ cs) s (off, h) = (λ _. off, off-OthersOff chosen cs s h)

-- then enabling the node leaves enabled exactly those that are it
enable_node-only :
    (chosen : ℕ) (cs : List ℕ) (s : World)
    → OthersOff chosen cs s
    → All (λ c. is_enabled (enable_node chosen s).1 c ≡ (chosen == c)) cs
unfolding enable_node modify_control
enable_node-only chosen [] s h = tt
enable_node-only chosen (c ∷ cs) s (off, h) = (
  chosen_flag (chosen == c) (set_flags true (s.control chosen)) (s.control c) refl off,
  enable_node-only chosen cs s h,
)

-- exactly the child at an index is enabled, and the index and a name are written down
abbrev pub IsIn : Program → ℕ → Option ℕ → String → World → Type 0
IsIn p i none name t = ⊥
IsIn p i (some index) name t =
    (chosen : ℕ) × (get_elem? (p.nodes i).children index ≡ some chosen)
    × All (λ c. is_enabled t c ≡ (chosen == c)) (p.nodes i).children
    × ((t.node_data i).current_state_index ≡ index)
    × ((t.node_data i).current_state_name ≡ some name)

pub entered :
    (p : Program) (i index : ℕ) (name : String) (o : Option ℕ) (u t : World)
    → get_elem? (p.nodes i).children index ≡ o
    → ((chosen : ℕ) → o ≡ some chosen → OthersOff chosen (p.nodes i).children u)
    → (enable_at o >>= λ _. set_state i index name) u ≡ (ok tt, t)
    → IsIn p i (some index) name t
unfolding enable_at enable_node set_state modify_control modify_data raise ◌>>=◌
entered p i index name none u t e h run =
    absurd (raised-ne-ok (ap (λ (v : Result (Unit {0}) × World). v.0) run))
entered p i index name (some chosen) u t e h run =
    let mark =
      λ (d : NodeData). record d { current_state_index = index; current_state_name = some name } in
    subst (λ (o : Result (Unit {0}) × World). IsIn p i (some index) name o.1) run
      (
        chosen,
        e,
        enable_node-only chosen (p.nodes i).children u (h chosen refl),
        ap (λ (d : NodeData). d.current_state_index)
            (update_self u.node_data i (mark (u.node_data i))),
        ap (λ (d : NodeData). d.current_state_name)
            (update_self u.node_data i (mark (u.node_data i))),
      )

start_machine-IsIn :
    (p : Program) (i : ℕ) (initial : String) (index : Option ℕ) (s t : World)
    → start_machine p i initial index s ≡ (ok tt, t)
    → IsIn p i index initial t
unfolding start_machine raise
start_machine-IsIn p i initial none s t run =
    absurd (raised-ne-ok (ap (λ (v : Result (Unit {0}) × World). v.0) run))
start_machine-IsIn p i initial (some index) s t run =
    let children = (p.nodes i).children in
    let u = (clear_all children s).1 in
    let cleared : clear_all children s ≡ (ok tt, u) =
      ap (λ r. (r, u)) (clear_all-returns children s) in
    entered p i index initial (get_elem? children index) u t refl
      (λ chosen _. off-OthersOff chosen children u (clear_all-disables children s))
      (sym (>>=-ok (clear_all children) _ cleared) ∙ run)

-- When a state machine has been initialized, its initial state is among its names, the children hold
-- a node at the place of that name, this node is the only one of the children that is enabled, and
-- the machine's data say so.
pub cfl_state_machine_init-IsIn :
    (p : Program) (kb : Kb) (i : ℕ) (s t : World)
    → cfl_state_machine_init p kb i s ≡ (ok tt, t)
    → let d = s.node_data i in IsIn p i (index_of d.initial_state d.state_names) d.initial_state t
unfolding cfl_state_machine_init get_data ◌>>=◌
cfl_state_machine_init-IsIn p kb i s t run =
    let d = s.node_data i in
    start_machine-IsIn p i d.initial_state (index_of d.initial_state d.state_names) s t run
