-- ===== src/ChainTree/Registry.antt =====
-- chain_tree/ct_runtime/registry.py: the tables of user functions of an engine. A callable is an
-- object with an identity, which `is` compares; what it does is told by the program's functions.
pub mod Entries
use robot_person.Base.{
  ℕ, ◌==◌, String, Bool, true, false, Option, none, some, List, [], ◌∷◌, ◌++◌, str_eq, lookup,
  insert, if◌then◌else◌,
}
use mathlib.Core.List.{map}

-- what is passed as `fn`
pub data Object : Type 0 where
  callable : ℕ → Object
  not_callable : Object

abbrev pub Table : Type 0
Table = List (String × ℕ)

-- One side of the bundle: its tables by name, and the descriptions.
pub record Side : Type 0 where
  pub tables : List (String × Table)
  pub descriptions : List (String × String)

pub record Registry : Type 0 where
  pub cfl : Side
  pub se : Side

pub data Refusal : Type 0 where
  empty_name not_a_callable different_callable no_table : Refusal

pub data Registered (A : Type 0) : Type 0 where
  done : A → Registered A
  refused : Refusal → Registered A

abbrev empty_tables : List String → List (String × Table)
empty_tables [] = []
empty_tables (t ∷ ts) = (t, []) ∷ empty_tables ts

unfoldable pub new_registry : Registry
new_registry = record {
  cfl = record { tables = empty_tables ("main" ∷ "boolean" ∷ "one_shot" ∷ []); descriptions = [] };
  se = record {
    tables = empty_tables ("m_call" ∷ "p_call" ∷ "o_call" ∷ "io_call" ∷ []);
    descriptions = [];
  };
}

-- `existing is not None and existing is not fn`
unfoldable pub is_other : Option ℕ → ℕ → Bool
unfolding if◌then◌else◌
is_other none fn = false
is_other (some existing) fn = if existing == fn then false else true

-- `side[table][name] = fn`, and the description unless it is empty
unfoldable pub write_entry : Side → String → Table → String → ℕ → String → Side
unfolding if◌then◌else◌
write_entry side table entries name fn description = record {
  tables = insert table (insert name fn entries) side.tables;
  descriptions =
      if str_eq description ""
      then side.descriptions
      else insert name description side.descriptions;
}

unfoldable pub register_in : Option Table → Side → String → String → ℕ → String → Registered Side
unfolding if◌then◌else◌ is_other
register_in none side table name fn description = refused no_table
register_in (some entries) side table name fn description =
    if is_other (lookup name entries) fn
    then refused different_callable
    else done (write_entry side table entries name fn description)

unfoldable pub register_fn : Side → String → String → Object → String → Registered Side
unfolding if◌then◌else◌
register_fn side table name not_callable description =
    if str_eq name "" then refused empty_name else refused not_a_callable
register_fn side table name (callable fn) description =
    if str_eq name ""
    then refused empty_name
    else register_in (lookup table side.tables) side table name fn description

abbrev on_cfl : Registry → Registered Side → Registered Registry
on_cfl r (done side) = done (record r { cfl = side })
on_cfl r (refused why) = refused why

abbrev on_se : Registry → Registered Side → Registered Registry
on_se r (done side) = done (record r { se = side })
on_se r (refused why) = refused why

unfoldable pub add_main : Registry → String → Object → String → Registered Registry
add_main r name fn description = on_cfl r (register_fn r.cfl "main" name fn description)

unfoldable pub add_boolean : Registry → String → Object → String → Registered Registry
add_boolean r name fn description = on_cfl r (register_fn r.cfl "boolean" name fn description)

unfoldable pub add_one_shot : Registry → String → Object → String → Registered Registry
add_one_shot r name fn description = on_cfl r (register_fn r.cfl "one_shot" name fn description)

unfoldable pub add_se_main : Registry → String → Object → String → Registered Registry
add_se_main r name fn description = on_se r (register_fn r.se "m_call" name fn description)

unfoldable pub add_se_pred : Registry → String → Object → String → Registered Registry
add_se_pred r name fn description = on_se r (register_fn r.se "p_call" name fn description)

unfoldable pub add_se_one_shot : Registry → String → Object → String → Registered Registry
add_se_one_shot r name fn description = on_se r (register_fn r.se "o_call" name fn description)

unfoldable pub add_se_io_one_shot : Registry → String → Object → String → Registered Registry
add_se_io_one_shot r name fn description = on_se r (register_fn r.se "io_call" name fn description)

-- `table.get(name)`
abbrev pub find_in : Option Table → String → Option ℕ
find_in none name = none
find_in (some entries) name = lookup name entries

unfoldable pub lookup_in : Side → String → String → Option ℕ
lookup_in side table name = find_in (lookup table side.tables) name

unfoldable pub lookup_main : Registry → String → Option ℕ
unfolding lookup_in
lookup_main r name = lookup_in r.cfl "main" name

unfoldable pub lookup_boolean : Registry → String → Option ℕ
unfolding lookup_in
lookup_boolean r name = lookup_in r.cfl "boolean" name

unfoldable pub lookup_one_shot : Registry → String → Option ℕ
unfolding lookup_in
lookup_one_shot r name = lookup_in r.cfl "one_shot" name

unfoldable pub lookup_se : Registry → String → String → Option ℕ
unfolding lookup_in
lookup_se r table name = lookup_in r.se table name

abbrev names_of : Option Table → List String
names_of none = []
names_of (some entries) = map (λ (entry : String × ℕ). entry.0) entries

unfoldable pub all_cfl_names : Registry → List String
all_cfl_names r =
    names_of (lookup "main" r.cfl.tables)
    ++ names_of (lookup "boolean" r.cfl.tables)
    ++ names_of (lookup "one_shot" r.cfl.tables)
