-- ===== src/ChainTree/Engine/Kbs/Laws.antt =====
-- What registering and activating a KB do: their errors, and that a second activation does nothing.
use robot_person.Base.{
  ◌≡◌, refl, ap, ◌∙◌, String, Bool, true, false, none, some, List, [], ◌∷◌, ◌++◌, eq_iff, lookup,
  insert, lookup-insert_self, ◌⊎◌, ◌||◌, Option-cases, ==_iff, Bool-cases, inl, inr, if◌then◌else◌,
}
use robot_person.ChainTree.State.{
  World, Kb, ok, raised, value_error, pure, raise, gets, modify, modify_control, ◌>>=◌, update_self,
}
use robot_person.ChainTree.Engine.{enable_node, set_flags}
use robot_person.ChainTree.Engine.Kbs.{same_kb, is_active, put_kb, add_kb, activate, activate_kb}

same_kb_refl : (kb : Kb) → same_kb kb kb ≡ true
same_kb_refl kb = rw ((eq_iff kb.name kb.name).1 refl, (==_iff kb.root kb.root).1 refl) refl

or_true : (b : Bool) → (b || true) ≡ true
or_true true = refl
or_true false = refl

is_active-append : (kb : Kb) (ks : List Kb) → is_active kb (ks ++ kb ∷ []) ≡ true
is_active-append kb [] = ap (λ b. b || false) (same_kb_refl kb)
is_active-append kb (k ∷ ks) =
    ap (λ b. same_kb k kb || b) (is_active-append kb ks) ∙ or_true (same_kb k kb)

-- the world in which a KB has just been activated
abbrev activated : Kb → World → World
activated kb s =
    let t = (enable_node kb.root s).1 in record t { active_kbs = t.active_kbs ++ kb ∷ [] }

activate-new :
    (kb : Kb) (s : World)
    → is_active kb s.active_kbs ≡ false
    → activate (some kb) s ≡ (ok kb, activated kb s)
unfolding activate enable_node pure gets modify modify_control ◌>>=◌ if◌then◌else◌
activate-new kb s h = rw h refl

activate-old :
    (kb : Kb) (s : World) → is_active kb s.active_kbs ≡ true → activate (some kb) s ≡ (ok kb, s)
unfolding activate enable_node pure gets modify modify_control ◌>>=◌ if◌then◌else◌
activate-old kb s h = rw h refl

activate_kb-known :
    (name : String) (kb : Kb) (s : World)
    → lookup name s.kbs ≡ some kb
    → activate_kb name s ≡ activate (some kb) s
unfolding activate_kb gets ◌>>=◌
activate_kb-known name kb s h = ap (λ o. activate o s) h

add_kb-new :
    (kb : Kb) (s : World) → lookup kb.name s.kbs ≡ none → add_kb kb s ≡ (ok tt, put_kb kb s)
unfolding add_kb gets modify ◌>>=◌
add_kb-new kb s h = rw h refl

add_kb-taken :
    (kb old : Kb) (s : World)
    → lookup kb.name s.kbs ≡ some old
    → add_kb kb s ≡ (raised value_error, s)
unfolding add_kb gets raise ◌>>=◌
add_kb-taken kb old s h = rw h refl

-- A KB under a new name that is not among the active ones can be added and then activated by its
-- name: it becomes the last of the active KBs, its root is enabled and not initialized, activating
-- it again changes nothing, and adding a KB under the same name raises a ValueError and changes
-- nothing.
pub activate_kb-add_kb :
    (kb other : Kb) (s : World)
    → lookup kb.name s.kbs ≡ none
    → is_active kb s.active_kbs ≡ false
    → other.name ≡ kb.name
    → let t = (add_kb kb s).1 in
      let u = (activate_kb kb.name t).1 in
      ((add_kb kb s).0 ≡ ok tt)
      × ((activate_kb kb.name t).0 ≡ ok kb)
      × (u.active_kbs ≡ s.active_kbs ++ kb ∷ [])
      × (u.control kb.root ≡ set_flags true (s.control kb.root))
      × (activate_kb kb.name u ≡ (ok kb, u))
      × (add_kb other u ≡ (raised value_error, u))
unfolding enable_node modify_control
activate_kb-add_kb kb other s free idle same =
    let known = lookup-insert_self kb.name kb s.kbs in
    let run =
      activate_kb-known kb.name kb (put_kb kb s) known ∙ activate-new kb (put_kb kb s) idle in
    rw (add_kb-new kb s free) (
      rw run (
        refl,
        refl,
        refl,
        update_self s.control kb.root (set_flags true (s.control kb.root)),
        activate_kb-known kb.name kb (activated kb (put_kb kb s)) known
            ∙ activate-old kb _ (is_active-append kb s.active_kbs),
        add_kb-taken other kb _ (ap (λ n. lookup n (insert kb.name kb s.kbs)) same ∙ known),
      ))

activate_kb-unknown :
    (name : String) (s : World)
    → lookup name s.kbs ≡ none
    → activate_kb name s ≡ (raised value_error, s)
unfolding activate_kb activate gets raise ◌>>=◌
activate_kb-unknown name s h = ap (λ o. activate o s) h

activate_kb-returns :
    (name : String) (kb : Kb) (s : World)
    → lookup name s.kbs ≡ some kb
    → (activate_kb name s).0 ≡ ok kb
activate_kb-returns name kb s h = ap (λ o. o.0) (activate_kb-known name kb s h) ∙ returns
  where
    returns : (activate (some kb) s).0 ≡ ok kb
    returns = elim (Bool-cases (is_active kb s.active_kbs)) [
      | inl e ↦ ap (λ o. o.0) (activate-old kb s e)
      | inr e ↦ ap (λ o. o.0) (activate-new kb s e)
    ]

-- For a name under which no KB is registered `add_kb` succeeds, and `activate_kb` raises a
-- ValueError and changes nothing; for any other name `add_kb` raises a ValueError and changes
-- nothing, and `activate_kb` returns the KB that is registered.
pub kb_errors :
    (kb : Kb) (s : World)
    → ((lookup kb.name s.kbs ≡ none)
        × ((add_kb kb s).0 ≡ ok tt)
        × (activate_kb kb.name s ≡ (raised value_error, s)))
      ⊎ ((old : Kb) × (lookup kb.name s.kbs ≡ some old)
          × (add_kb kb s ≡ (raised value_error, s))
          × ((activate_kb kb.name s).0 ≡ ok old))
kb_errors kb s = elim (Option-cases (lookup kb.name s.kbs)) [
  | inl e ↦ inl (e, ap (λ o. o.0) (add_kb-new kb s e), activate_kb-unknown kb.name s e)
  | inr (old, e) ↦ inr (old, e, add_kb-taken kb old s e, activate_kb-returns kb.name old s e)
]
