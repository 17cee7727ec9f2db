-- ===== src/ChainTree/Invariants.antt =====
-- Properties of the engine's state that every run keeps: one rule for each way to build an action,
-- and for what the builtins call.
pub mod Teardown
use robot_person.Base.{
  ℕ, zero, suc, ◌≡◌, refl, ◌∙◌, String, Bool, true, false, Option, none, some, List, [], ◌∷◌, ◌++◌,
  if◌then◌else◌,
}
use mathlib.Core.Path.{subst⁻¹}
use mathlib.Core.List.{reverse}
use robot_person.ChainTree.Values.{
  Datum, null, boolean, number, text, node_ref, dict, nil, field, Event,
}
use robot_person.ChainTree.State.{
  World, Kb, Control, Error, Result, ok, raised, Action, pure, raise, gets, modify, get_control,
  get_data, modify_control, update-cases_eq, and_then, ◌>>=◌,
}
use robot_person.ChainTree.Node.{Program, is_enabled, enabled_links}
use robot_person.ChainTree.Walker.{walk_stack, walk}
use robot_person.ChainTree.EventQueue.{append_event, enqueue}
use robot_person.ChainTree.Engine.{
  set_flags, enable_node, clear_flags, call_boolean, call_one_shot, fire_boolean, fire_one_shot,
  disable_node, disable_all, phase1_visit, record_enabled, deliver, terminate_node_tree,
}
use robot_person.ChainTree.Builtins.{ask, fire, clear_all, fields_of, dict_of, read_int, int_of}

-- what a result that is no exception satisfies
abbrev pub Returns : {A : Type 0} → (A → Type 0) → Result A → Type 0
Returns Q (ok a) = Q a
Returns Q (raised e) = Unit

-- Every run of `m` from a state with `P` ends in one, and what it returns satisfies `Q`.
pub record Runs {A : Type 0} (P : World → Type 0) (m : Action A) (Q : A → Type 0) : Type 0 where
  pub at : (s : World) → P s → P (m s).1 × Returns Q (m s).0

abbrev pub Keeps : {A : Type 0} → (World → Type 0) → Action A → Type 0
Keeps P m = Runs P m (λ _. Unit)

module _ (P : World → Type 0) where
  module _ {A : Type 0} where
    pub Runs-pure : {Q : A → Type 0} (a : A) → Q a → Runs P (pure a) Q
    unfolding pure
    Runs-pure a q = record { at = λ s h. (h, q) }

    pub Runs-raise : {Q : A → Type 0} (e : Error) → Runs P (raise e) Q
    unfolding raise
    Runs-raise e = record { at = λ s h. (h, tt) }

    pub Runs-gets :
        {Q : A → Type 0} (f : World → A) → ((s : World) → P s → Q (f s)) → Runs P (gets f) Q
    unfolding gets
    Runs-gets f q = record { at = λ s h. (h, q s h) }

    pub Keeps-gets : (f : World → A) → Keeps P (gets f)
    unfolding gets
    Keeps-gets f = record { at = λ s h. (h, tt) }

    pub Runs-if :
        {Q : A → Type 0} (b : Bool) (m n : Action A)
        → Runs P m Q
        → Runs P n Q
        → Runs P (if b then m else n) Q
    unfolding if◌then◌else◌
    Runs-if true m n km kn = km
    Runs-if false m n km kn = kn

  -- the branches may use what the test found
  pub Runs-if_eq :
      {A : Type 0} {Q : A → Type 0} (b : Bool) (m n : Action A)
      → (b ≡ true → Runs P m Q)
      → (b ≡ false → Runs P n Q)
      → Runs P (if b then m else n) Q
  unfolding if◌then◌else◌
  Runs-if_eq true m n km kn = km refl
  Runs-if_eq false m n km kn = kn refl

  pub Runs->>= :
      {A B : Type 0} {Q : A → Type 0} {R : B → Type 0} (m : Action A) (f : A → Action B)
      → Runs P m Q
      → ((a : A) → Q a → Runs P (f a) R)
      → Runs P (m >>= f) R
  unfolding ◌>>=◌
  Runs->>= {A} {B} {Q} {R} m f km kf = record { at = λ s h. goes_on (m s) (km.at s h) }
    where
      goes_on :
          (o : Result A × World)
          → P o.1 × Returns Q o.0
          → P (and_then o.0 f o.1).1 × Returns R (and_then o.0 f o.1).0
      goes_on (ok a, t) (h, q) = (kf a q).at t h
      goes_on (raised e, t) (h, q) = (h, tt)

  pub Keeps->>= :
      {A B : Type 0} {R : B → Type 0} (m : Action A) (f : A → Action B)
      → Keeps P m
      → ((a : A) → Runs P (f a) R)
      → Runs P (m >>= f) R
  Keeps->>= m f km kf = Runs->>= m f km (λ a _. kf a)

  pub Keeps-get_data : (i : ℕ) → Keeps P (get_data i)
  unfolding get_data
  Keeps-get_data i = record { at = λ s h. (h, tt) }

  pub Keeps-get_control : (i : ℕ) → Keeps P (get_control i)
  unfolding get_control
  Keeps-get_control i = record { at = λ s h. (h, tt) }

  pub Runs-get_control :
      {Q : Control → Type 0} (i : ℕ)
      → ((s : World) → P s → Q (s.control i))
      → Runs P (get_control i) Q
  unfolding get_control
  Runs-get_control i q = record { at = λ s h. (h, q s h) }

-- A property that the flags, the queues and the functions of the program do not touch.
pub record IsStable (p : Program) (P : World → Type 0) : Type 0 where
  pub flags : (e : Bool) (i : ℕ) → Keeps P (modify_control i (set_flags e))
  pub queues : (e : Event) → Keeps P (enqueue e)
  pub booleans :
      (fn : ℕ) (kb : Kb) (i : ℕ) (event_type event_id : String) (payload : Datum)
      → Keeps P (p.boolean_fn fn kb i event_type event_id payload)
  pub one_shots : (fn : ℕ) (kb : Kb) (i : ℕ) → Keeps P (p.one_shot_fn fn kb i)

-- A property of the `ct_control` of one node which says nothing of the flags is stable, if the
-- functions of the program keep it.
module _ (Q : Control → Type 0) (i : ℕ) where
  pub Keeps-set_flags :
      (e : Bool) (j : ℕ)
      → ((c : Control) → Q c → Q (set_flags e c))
      → Keeps (λ s. Q (s.control i)) (modify_control j (set_flags e))
  unfolding modify_control
  Keeps-set_flags e j same = record {
    at = λ s h. (
      update-cases_eq s.control j (set_flags e (s.control j)) Q i
          (λ (here : j ≡ i). same (s.control j) (subst⁻¹ (λ m. Q (s.control m)) here h)) h,
      tt,
    );
  }

  append_event-control :
      (b : Bool) (s : World) (hs ns : List Event)
      → Q (s.control i)
      → Q ((if b then record s { high = hs } else record s { normal = ns }).control i)
  unfolding if◌then◌else◌
  append_event-control true s hs ns h = h
  append_event-control false s hs ns h = h

  pub Keeps-enqueue : (e : Event) → Keeps (λ s. Q (s.control i)) (enqueue e)
  unfolding enqueue append_event modify
  Keeps-enqueue e = record { at = λ s h. (append_event-control _ s _ _ h, tt) }

  pub control-IsStable :
      (p : Program)
      → ((e : Bool) (c : Control) → Q c → Q (set_flags e c))
      → ((fn : ℕ) (kb : Kb) (j : ℕ) (event_type event_id : String) (payload : Datum)
          → Keeps (λ s. Q (s.control i)) (p.boolean_fn fn kb j event_type event_id payload))
      → ((fn : ℕ) (kb : Kb) (j : ℕ) → Keeps (λ s. Q (s.control i)) (p.one_shot_fn fn kb j))
      → IsStable p (λ s. Q (s.control i))
  control-IsStable p same b o = record {
    flags = λ e j. Keeps-set_flags e j (same e);
    queues = Keeps-enqueue;
    booleans = b;
    one_shots = o;
  }

pub ruleset run_rules =
    (Runs-pure, Runs-raise, Keeps-gets, Runs-if, Keeps->>=, Keeps-get_data, Keeps-get_control, tt)
