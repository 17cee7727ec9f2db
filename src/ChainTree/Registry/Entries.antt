-- ===== src/ChainTree/Registry/Entries.antt =====
-- What a registration does to the lookups, and when it is refused.
use robot_person.Base.{
  ℕ, ◌≡◌, ◌≢◌, ◌⊎◌, ◌==◌, inl, inr, refl, sym, ap, ◌∙◌, String, true, false, Option, none, some,
  ==_iff, str_eq, lookup, insert, lookup-insert_self, lookup-insert_other, Bool-cases,
  if◌then◌else◌,
}
use mathlib.Core.Path.{subst}
use robot_person.ChainTree.Registry.{
  Object, callable, not_callable, Table, Side, Refusal, empty_name, not_a_callable,
  different_callable, no_table, Registered, done, refused, is_other, write_entry, register_in,
  register_fn, find_in, lookup_in,
}

-- Why a registration is refused: the name is empty, the object cannot be called, the side has no
-- such table, or the name stands there for another callable.
abbrev pub IsRefused : Side → String → String → Object → Refusal → Type 0
IsRefused side table name fn empty_name = str_eq name "" ≡ true
IsRefused side table name fn not_a_callable = fn ≡ not_callable
IsRefused side table name fn no_table = lookup table side.tables ≡ none
IsRefused side table name fn different_callable =
    (old : ℕ) × (lookup_in side table name ≡ some old) × (fn ≢ callable old)

-- Why one is accepted: the name is not empty, the side has the table, and the name stands there for
-- nothing or for the same callable.
abbrev pub IsAccepted : Side → String → String → ℕ → Type 0
IsAccepted side table name n =
    (str_eq name "" ≡ false)
    × ((entries : Table) × (lookup table side.tables ≡ some entries))
    × ((lookup_in side table name ≡ none) ⊎ (lookup_in side table name ≡ some n))

-- what stands in the descriptions for the name that was registered
abbrev pub described : String → Option String → Option String
described description old = if str_eq description "" then old else some description

-- A refused registration has a reason to be refused. One that is not refused has none, makes the name
-- stand for the callable and, unless it is empty, for the description, and leaves alone the other
-- names of the table, the other tables and the other descriptions.
abbrev pub Registers : Side → String → String → Object → String → Registered Side → Type 0
Registers side table name fn description (refused why) = IsRefused side table name fn why
Registers side table name fn description (done after) =
    (n : ℕ) × (fn ≡ callable n)
    × IsAccepted side table name n
    × (lookup_in after table name ≡ some n)
    × ((other : String) (key : String)
        → str_eq table other ≡ false
        → lookup_in after other key ≡ lookup_in side other key)
    × ((other : String)
        → str_eq name other ≡ false
        → lookup_in after table other ≡ lookup_in side table other)
    × (lookup name after.descriptions ≡ described description (lookup name side.descriptions))
    × ((other : String)
        → str_eq name other ≡ false
        → lookup other after.descriptions ≡ lookup other side.descriptions)

callable_inj : {a b : ℕ} → callable a ≡ callable b → a ≡ b
callable_inj h = cc

is_other_self : (n : ℕ) → is_other (some n) n ≡ false
unfolding is_other if◌then◌else◌
is_other_self n = rw ((==_iff n n).1 refl) refl

is_other-eq-true :
    (found : Option ℕ) (fn : ℕ)
    → is_other found fn ≡ true
    → (old : ℕ) × (found ≡ some old) × (callable fn ≢ callable old)
unfolding is_other if◌then◌else◌
is_other-eq-true none fn h = cc
is_other-eq-true (some old) fn h = (
  old,
  refl,
  λ same.
      let again : is_other (some old) old ≡ true =
        subst (λ k. is_other (some old) k ≡ true) (callable_inj same) h in
      let never = is_other_self old in cc,
)

is_other-eq-false :
    (found : Option ℕ) (fn : ℕ) → is_other found fn ≡ false → (found ≡ none) ⊎ (found ≡ some fn)
unfolding is_other if◌then◌else◌
is_other-eq-false none fn h = inl refl
is_other-eq-false (some old) fn h = elim (Bool-cases (old == fn)) [
  | inl same ↦ inr (ap some ((==_iff old fn).0 same))
  | inr apart ↦ let never : is_other (some old) fn ≡ true = rw apart refl in cc
]

module _ (side : Side) (table name : String) (entries : Table) (fn : ℕ) (description : String) where
  write_entry-described :
      lookup name (write_entry side table entries name fn description).descriptions
      ≡ described description (lookup name side.descriptions)
  unfolding write_entry if◌then◌else◌
  write_entry-described = elim (Bool-cases (str_eq description "")) [
    | inl empty ↦ rw empty refl
    | inr given ↦ rw given (lookup-insert_self name description side.descriptions)
  ]

  write_entry-other_description :
      (other : String)
      → str_eq name other ≡ false
      → lookup other (write_entry side table entries name fn description).descriptions
        ≡ lookup other side.descriptions
  unfolding write_entry if◌then◌else◌
  write_entry-other_description other apart = elim (Bool-cases (str_eq description "")) [
    | inl empty ↦ rw empty refl
    | inr given ↦ rw given (lookup-insert_other name other description side.descriptions apart)
  ]

register_in-Registers :
    (found : Option Table) (side : Side) (table name : String) (fn : ℕ) (description : String)
    → lookup table side.tables ≡ found
    → str_eq name "" ≡ false
    → Registers side table name
        (callable fn)
        description
        (register_in found side table name fn description)
unfolding register_in if◌then◌else◌ write_entry lookup_in
register_in-Registers none side table name fn description e named = e
register_in-Registers (some entries) side table name fn description e named =
    elim (Bool-cases (is_other (lookup name entries) fn)) [
      | inl differs ↦ rw differs (
          let (old, found, apart) = is_other-eq-true (lookup name entries) fn differs in
          (old, ap (λ t. find_in t name) e ∙ found, apart))
      | inr same ↦ rw same (
        fn,
        refl,
        (
          named,
          (entries, e),
          subst (λ o. (find_in o name ≡ none) ⊎ (find_in o name ≡ some fn)) (sym e)
              (is_other-eq-false (lookup name entries) fn same),
        ),
        ap (λ t. find_in t name) (lookup-insert_self table (insert name fn entries) side.tables)
            ∙ lookup-insert_self name fn entries,
        λ other key apart.
            ap (λ t. find_in t key)
              (lookup-insert_other table other (insert name fn entries) side.tables apart),
        λ other apart.
            ap (λ t. find_in t other)
              (lookup-insert_self table (insert name fn entries) side.tables)
            ∙ lookup-insert_other name other fn entries apart
            ∙ ap (λ t. find_in t other) (sym e),
        write_entry-described side table name entries fn description,
        write_entry-other_description side table name entries fn description,
      )
    ]

-- A registration, for every side, table, name and object. If it is refused, then the name is empty,
-- the object is not callable, the table is missing, or the name stands for another callable. If it is
-- not, then none of these is so, the name stands for the callable and for the description, unless that
-- is empty, and no other name, no other table and no other description changes.
pub register_fn-Registers :
    (side : Side) (table name : String) (fn : Object) (description : String)
    → Registers side table name fn description (register_fn side table name fn description)
unfolding register_fn if◌then◌else◌
register_fn-Registers side table name not_callable description =
    elim (Bool-cases (str_eq name "")) [ inl e ↦ rw e e | inr e ↦ rw e refl ]
register_fn-Registers side table name (callable fn) description =
    elim (Bool-cases (str_eq name "")) [
      | inl e ↦ rw e e
      | inr e ↦
          rw e
            (register_in-Registers (lookup table side.tables) side table name fn description refl e)
    ]
