-- ===== src/ChainTree/Invariants/Teardown.antt =====
-- Properties that a teardown keeps, and what the builtins do beside it.
use robot_person.Base.{
  ℕ, zero, suc, ◌≡◌, refl, ◌∙◌, String, Bool, true, false, Option, none, some, List, [], ◌∷◌, ◌++◌,
  if◌then◌else◌,
}
use mathlib.Core.Path.{subst⁻¹}
use mathlib.Core.List.{reverse}
use robot_person.ChainTree.Values.{
  Datum, null, boolean, number, text, node_ref, dict, nil, field, Event,
}
use robot_person.ChainTree.Registry.{lookup_one_shot}
use robot_person.ChainTree.State.{
  World, Kb, Result, ok, raised, raise, pure, gets, modify_control, ◌>>=◌,
}
use robot_person.ChainTree.Node.{Program, is_enabled, enabled_links}
use robot_person.ChainTree.Walker.{walk_stack, walk}
use robot_person.ChainTree.Engine.{
  set_flags, enable_node, clear_flags, call_boolean, call_one_shot, fire_boolean, fire_one_shot,
  disable_node, disable_all, phase1_visit, record_enabled, deliver, terminate_node_tree,
}
use robot_person.ChainTree.Builtins.{ask, fire, clear_all, fields_of, dict_of, read_int, int_of}
use robot_person.ChainTree.Invariants.{
  Returns, Keeps, Runs-gets, Runs->>=, Runs-pure, Runs-if, Keeps->>=, IsStable, run_rules,
}

abbrev both_enabled : World × List ℕ → ℕ → Bool
both_enabled v = is_enabled v.0

module _ (p : Program) where
  phase1_visit-world : (i level : ℕ) (v : World × List ℕ) → (phase1_visit p i level v).1.0 ≡ v.0
  unfolding phase1_visit if◌then◌else◌
  phase1_visit-world i level v = either (is_enabled v.0 i)
    where
      either : (b : Bool) → (if b then (v.0, v.1 ++ i ∷ []) else v).0 ≡ v.0
      either true = refl
      either false = refl

  -- phase 1 only reads
  walk_stack-world :
      (r : ℕ) (stack : List (List ℕ)) (v : World × List ℕ)
      → (walk_stack (phase1_visit p) (enabled_links both_enabled p) r stack v).1.0 ≡ v.0
  unfolding walk_stack phase1_visit gets raise pure ◌>>=◌
  walk_stack-world zero stack v = refl
  walk_stack-world (suc r) [] v = refl
  walk_stack-world (suc r) ([] ∷ levels) v = walk_stack-world r levels v
  walk_stack-world (suc r) ((i ∷ is) ∷ levels) v = walk_stack-world r _ _ ∙ phase1_visit-world i 0 v

  record_enabled-world : (i : ℕ) (v : World × List ℕ) → (record_enabled p i v).1.0 ≡ v.0
  unfolding record_enabled walk phase1_visit gets pure ◌>>=◌
  record_enabled-world i v = walk_stack-world p.rounds _ _ ∙ phase1_visit-world i 0 v

module _ (P : World → Type 0) where
  pub Keeps-fields_of : (d : Datum) → Keeps P (fields_of d)
  unfolding fields_of
  Keeps-fields_of null = search run_rules
  Keeps-fields_of (boolean true) = search run_rules
  Keeps-fields_of (boolean false) = search run_rules
  Keeps-fields_of (number n) = search run_rules
  Keeps-fields_of (text t) = search run_rules
  Keeps-fields_of (node_ref i) = search run_rules
  Keeps-fields_of (dict fields) = search run_rules

  pub Keeps-dict_of : (d : Datum) → Keeps P (dict_of d)
  unfolding dict_of
  Keeps-dict_of null = search run_rules
  Keeps-dict_of (boolean true) = search run_rules
  Keeps-dict_of (boolean false) = search run_rules
  Keeps-dict_of (number n) = search run_rules
  Keeps-dict_of (text t) = search run_rules
  Keeps-dict_of (node_ref i) = search run_rules
  Keeps-dict_of (dict fields) = search run_rules

  Keeps-read_int : (n : Option ℕ) → Keeps P (read_int n)
  unfolding read_int
  Keeps-read_int none = search run_rules
  Keeps-read_int (some n) = search run_rules

  pub Keeps-int_of : (p : Program) (d : Datum) → Keeps P (int_of p d)
  unfolding int_of
  Keeps-int_of p null = search run_rules
  Keeps-int_of p (boolean b) = search run_rules
  Keeps-int_of p (number n) = search run_rules
  Keeps-int_of p (text t) = search (run_rules, Keeps-read_int)
  Keeps-int_of p (node_ref i) = search run_rules
  Keeps-int_of p (dict nil) = search run_rules
  Keeps-int_of p (dict (field k v others)) = search run_rules

-- whether a teardown that runs the boolean functions and the termination functions of the nodes keeps
-- a property: clearing flags does, and so do these functions, by their names in the registry
pub record OutlivesTeardown (p : Program) (P : World → Type 0) : Type 0 where
  pub clears : (i : ℕ) → Keeps P (clear_flags i)
  pub booleans : (kb : Kb) (i : ℕ) → Keeps P (fire_boolean p kb i)
  pub terms : (kb : Kb) (i : ℕ) → Keeps P (fire_one_shot p (p.nodes i).term_fn_name kb i)

module _ (p : Program) (P : World → Type 0) (torn : OutlivesTeardown p P) where
  pub Keeps-disable_node : (kb : Kb) (i : ℕ) → Keeps P (disable_node p kb i)
  unfolding disable_node
  Keeps-disable_node kb i = search (run_rules, torn.clears, torn.booleans, torn.terms) depth 12

  pub Keeps-disable_all : (kb : Kb) (is : List ℕ) → Keeps P (disable_all p kb is)
  unfolding disable_all
  Keeps-disable_all kb [] = search run_rules
  Keeps-disable_all kb (i ∷ is) =
      Keeps->>= P (disable_node p kb i) _ (Keeps-disable_node kb i) (λ _. Keeps-disable_all kb is)

  Keeps-deliver :
      (kb : Kb) (o : Result (Unit {0}) × (World × List ℕ)) (s : World)
      → o.1.0 ≡ s
      → P s
      → P (deliver p kb o).1 × Returns (λ _. Unit) (deliver p kb o).0
  unfolding deliver
  Keeps-deliver kb (ok _, (t, l)) s e h = (Keeps-disable_all kb (reverse l)).at t (subst⁻¹ P e h)
  Keeps-deliver kb (raised x, (t, l)) s e h = (subst⁻¹ P e h, tt)

  pub Keeps-terminate_node_tree : (kb : Kb) (i : ℕ) → Keeps P (terminate_node_tree p kb i)
  unfolding terminate_node_tree
  Keeps-terminate_node_tree kb i = Runs-if P _ _ _ (Keeps-disable_node kb i) (record {
    at =
        λ s h. Keeps-deliver kb (record_enabled p i (s, [])) s (record_enabled-world p i (s, [])) h;
  })

module _ (P : World → Type 0)
    (flags : (e : Bool) (i : ℕ) → Keeps P (modify_control i (set_flags e))) where
  pub Keeps-enable_node : (i : ℕ) → Keeps P (enable_node i)
  unfolding enable_node
  Keeps-enable_node i = flags true i

  pub Keeps-clear_all : (is : List ℕ) → Keeps P (clear_all is)
  unfolding clear_all
  Keeps-clear_all [] = search run_rules
  Keeps-clear_all (i ∷ is) =
      Keeps->>= P (modify_control i (set_flags false)) _ (flags false i) (λ _. Keeps-clear_all is)

module _ (p : Program) (P : World → Type 0)
    (booleans : (fn : ℕ) (kb : Kb) (i : ℕ) (event_type event_id : String) (payload : Datum)
      → Keeps P (p.boolean_fn fn kb i event_type event_id payload)) where
  pub Keeps-call_boolean :
      (fn : Option ℕ) (kb : Kb) (i : ℕ) (event_type event_id : String) (payload : Datum)
      → Keeps P (call_boolean p fn kb i event_type event_id payload)
  unfolding call_boolean
  Keeps-call_boolean none kb i event_type event_id payload = search run_rules
  Keeps-call_boolean (some fn) kb i event_type event_id payload =
      booleans fn kb i event_type event_id payload

  pub Keeps-fire_boolean : (kb : Kb) (i : ℕ) → Keeps P (fire_boolean p kb i)
  unfolding fire_boolean
  Keeps-fire_boolean kb i = search (run_rules, Keeps-call_boolean) depth 12

  pub Keeps-ask :
      (default : Bool) (name : Option String) (kb : Kb) (i : ℕ) (event : Event)
      → Keeps P (ask p default name kb i event)
  unfolding ask
  Keeps-ask default name kb i event = search (run_rules, Keeps-call_boolean) depth 12

module _ (p : Program) (P : World → Type 0) (stable : IsStable p P) where
  pub Keeps-call_one_shot : (fn : Option ℕ) (kb : Kb) (i : ℕ) → Keeps P (call_one_shot p fn kb i)
  unfolding call_one_shot
  Keeps-call_one_shot none kb i = search run_rules
  Keeps-call_one_shot (some fn) kb i = stable.one_shots fn kb i

  Keeps-fire_one_shot :
      (name : Option String) (kb : Kb) (i : ℕ) → Keeps P (fire_one_shot p name kb i)
  unfolding fire_one_shot
  Keeps-fire_one_shot name kb i = search (run_rules, Keeps-call_one_shot) depth 12

  pub Keeps-fire : (name : String) (kb : Kb) (i : ℕ) → Keeps P (fire p name kb i)
  unfolding fire
  Keeps-fire name kb i = search (run_rules, Keeps-call_one_shot) depth 12

  pub IsStable-OutlivesTeardown : OutlivesTeardown p P
  IsStable-OutlivesTeardown = record {
    clears = stable.flags false;
    booleans = Keeps-fire_boolean p P stable.booleans;
    terms = λ kb i. Keeps-fire_one_shot (p.nodes i).term_fn_name kb i;
  }

-- a one-shot by its name, where the property says which callable the registry has for it
module _ (p : Program) (P : World → Type 0) (name : String) (fn : ℕ)
    (registered : (s : World) → P s → lookup_one_shot s.registry name ≡ some fn) where
  Keeps-found :
      (kb : Kb) (i : ℕ)
      → Keeps P (p.one_shot_fn fn kb i)
      → Keeps P (do found ← gets (λ s. lookup_one_shot s.registry name); call_one_shot p found kb i)
  unfolding call_one_shot
  Keeps-found kb i kept =
      Runs->>= P _ _ (Runs-gets P {Q = λ found. found ≡ some fn} _ registered)
        (λ found e. subst⁻¹ (λ o. Keeps P (call_one_shot p o kb i)) e kept)

  pub Keeps-fire_one_shot_found :
      (kb : Kb) (i : ℕ)
      → Keeps P (p.one_shot_fn fn kb i)
      → Keeps P (fire_one_shot p (some name) kb i)
  unfolding fire_one_shot
  Keeps-fire_one_shot_found kb i kept = Runs-if P _ _ _ (Keeps-found kb i kept) (Runs-pure P tt tt)

  pub Keeps-fire_found :
      (kb : Kb) (i : ℕ) → Keeps P (p.one_shot_fn fn kb i) → Keeps P (fire p name kb i)
  unfolding fire
  Keeps-fire_found kb i kept = Runs-if P _ _ _ (Keeps-found kb i kept) (Runs-pure P tt tt)
