-- ===== src/SEngine/Keeps.antt =====
-- How the state may evolve while the nodes with identities from `lo` up to `hi` run, and one rule
-- for each way to build an action. Every operator is shown to keep to it in the children.
pub mod Runtime
pub mod Control
pub mod Parallel
pub mod Selection
pub mod Outer
pub mod Whole
use robot_person.Base.{
  ℕ, ◌+◌, ◌≤◌, ◌<◌, ◌≡◌, refl, sym, ap, ◌∙◌, ◌⊎◌, inl, inr, Bool, true, false, Option, none, some,
  List, [], ◌∷◌, ◌++◌, String, length, length-append, leb, leb→le, Bool-cases, ◌==◌, All, arith,
  if◌then◌else◌,
}
use mathlib.Core.List.{append-nil, append_assoc}
use robot_person.SEngine.Values.{Value}
use robot_person.SEngine.State.{
  State, Cell, UserData, Event, EventData, Error, Result, ok, raised, Action, pure, raise, gets,
  modify, get_cell, modify_cell, update, ◌>>=◌, Env, LocalTime, read_time, read_local_time, LogLine,
}
use robot_person.SEngine.Dispatch.{set_current}
use robot_person.SEngine.Leaves.Pred.{set_key}
use robot_person.SEngine.Leaves.Oneshot.{write_log, dict_load}
use robot_person.SEngine.Queue.{
  Priority, high, normal, queue_size, push_event, at_limit, append_event,
}
use robot_person.SEngine.Handle.{Handle}

abbrev pub Extends : {A : Type 0} → List A → List A → Type 0
Extends {A} xs ys = (zs : List A) × (ys ≡ xs ++ zs)

-- a number of queued events within the limit
abbrev pub Fits : Option ℕ → ℕ → Type 0
Fits none n = Unit
Fits (some limit) n = n ≤ limit

abbrev pub queued : State → ℕ
queued s = length s.high_queue + length s.normal_queue

pub record Evolves (lo hi : ℕ) (limit : Option ℕ) (s t : State) : Type 0 where
  pub frame : (j : ℕ) → (j < lo) ⊎ (hi ≤ j) → t.cells j ≡ s.cells j
  pub ever : (j : ℕ) → (s.cells j).ever_init ≡ true → (t.cells j).ever_init ≡ true
  pub logs : Extends s.log t.log
  pub highs : Extends s.high_queue t.high_queue
  pub normals : Extends s.normal_queue t.normal_queue
  pub bounded : Fits limit (queued s) → Fits limit (queued t)

Extends-refl : {A : Type 0} (xs : List A) → Extends xs xs
Extends-refl xs = ([], sym (append-nil xs))

Extends-trans :
    {A : Type 0} (xs : List A) {ys zs : List A} → Extends xs ys → Extends ys zs → Extends xs zs
Extends-trans xs (a, p) (b, q) = (a ++ b, rw (q, p) (append_assoc xs a b))

module _ (lo hi : ℕ) (limit : Option ℕ) where
  pub Evolves-refl : (s : State) → Evolves lo hi limit s s
  Evolves-refl s = record {
    frame = λ j h. refl;
    ever = λ j h. h;
    logs = Extends-refl s.log;
    highs = Extends-refl s.high_queue;
    normals = Extends-refl s.normal_queue;
    bounded = λ h. h;
  }

  pub Evolves-trans :
      (s t u : State) → Evolves lo hi limit s t → Evolves lo hi limit t u → Evolves lo hi limit s u
  Evolves-trans s t u p q = record {
    frame = λ j h. q.frame j h ∙ p.frame j h;
    ever = λ j h. q.ever j (p.ever j h);
    logs = Extends-trans s.log p.logs q.logs;
    highs = Extends-trans s.high_queue p.highs q.highs;
    normals = Extends-trans s.normal_queue p.normals q.normals;
    bounded = λ h. q.bounded (p.bounded h);
  }

  -- every run of `m` evolves the state, whether it returns or raises
  pub record Keeps {A : Type 0} (m : Action A) : Type 0 where
    pub at : (s : State) → Evolves lo hi limit s (m s).1

  -- the cells, the log and the queues are the same
  Evolves-quiet :
      (s t : State)
      → t.cells ≡ s.cells
      → t.log ≡ s.log
      → t.high_queue ≡ s.high_queue
      → t.normal_queue ≡ s.normal_queue
      → Evolves lo hi limit s t
  Evolves-quiet s t c l h n = record {
    frame = λ j _. ap (λ (g : ℕ → Cell). g j) c;
    ever = λ j w. rw c w;
    logs = ([], l ∙ sym (append-nil s.log));
    highs = ([], h ∙ sym (append-nil s.high_queue));
    normals = ([], n ∙ sym (append-nil s.normal_queue));
    bounded = λ w. rw (h, n) w;
  }

  module _ {A : Type 0} where
    pub Keeps-pure : (a : A) → Keeps (pure a)
    unfolding pure
    Keeps-pure a = record { at = Evolves-refl }

    pub Keeps-raise : (e : Error) → Keeps (raise {A = A} e)
    unfolding raise
    Keeps-raise e = record { at = Evolves-refl }

    pub Keeps-gets : (f : State → A) → Keeps (gets f)
    unfolding gets
    Keeps-gets f = record { at = Evolves-refl }

    pub Keeps-if : (b : Bool) (m n : Action A) → Keeps m → Keeps n → Keeps (if b then m else n)
    unfolding if◌then◌else◌
    Keeps-if true m n km kn = km
    Keeps-if false m n km kn = kn

  pub Keeps-get_cell : (i : ℕ) → Keeps (get_cell i)
  unfolding get_cell
  Keeps-get_cell i = record { at = Evolves-refl }

  -- an update that never takes `ever_init` back
  abbrev pub KeepsEver : (Cell → Cell) → Type 0
  KeepsEver f = (c : Cell) → c.ever_init ≡ true → (f c).ever_init ≡ true

  pub Keeps-modify_cell :
      (i : ℕ) (f : Cell → Cell) → lo ≤ i → i < hi → KeepsEver f → Keeps (modify_cell i f)
  unfolding modify_cell
  Keeps-modify_cell i f h k e = record {
    at = λ s. record {
      frame = λ j out. ground arith;
      ever = λ j w. ground (arith, e (s.cells i));
      logs = Extends-refl s.log;
      highs = Extends-refl s.high_queue;
      normals = Extends-refl s.normal_queue;
      bounded = λ w. w;
    };
  }

  pub Keeps-time : (env : Env) → Keeps (read_time env)
  unfolding read_time
  Keeps-time env = record { at = λ s. Evolves-quiet s _ refl refl refl refl }

  pub Keeps-local_time : (env : Env) → Keeps (read_local_time env)
  unfolding read_local_time
  Keeps-local_time env = record { at = λ s. Evolves-quiet s _ refl refl refl refl }

  pub Keeps-set_current : (e : String) (d : EventData) → Keeps (set_current e d)
  unfolding set_current modify
  Keeps-set_current e d = record { at = λ s. Evolves-quiet s _ refl refl refl refl }

  pub Keeps-set_key : (k : String) (v : Value) → Keeps (set_key k v)
  unfolding set_key modify
  Keeps-set_key k v = record { at = λ s. Evolves-quiet s _ refl refl refl refl }

  pub Keeps-dict_load : (source : List (String × Value)) → Keeps (dict_load source)
  unfolding dict_load modify
  Keeps-dict_load source = record { at = λ s. Evolves-quiet s _ refl refl refl refl }

  pub Keeps-write_log : (line : LogLine) → Keeps (write_log line)
  unfolding write_log modify
  Keeps-write_log line = record {
    at = λ s. record {
      frame = λ j h. refl;
      ever = λ j h. h;
      logs = (line ∷ [], refl);
      highs = Extends-refl s.high_queue;
      normals = Extends-refl s.normal_queue;
      bounded = λ h. h;
    };
  }

  module _ {A B : Type 0} where
    Keeps-and_then :
        (r : Result A) (f : A → Action B) (s t : State)
        → Evolves lo hi limit s t
        → ((a : A) → Keeps (f a))
        → Evolves lo hi limit s (◌>>=◌ (λ u. (r, t)) f s).1
    unfolding ◌>>=◌
    Keeps-and_then (ok a) f s t p k = Evolves-trans s t _ p ((k a).at t)
    Keeps-and_then (raised e) f s t p k = p

    pub Keeps-bind :
        (m : Action A) (f : A → Action B) → Keeps m → ((a : A) → Keeps (f a)) → Keeps (m >>= f)
    unfolding ◌>>=◌ Keeps-and_then
    Keeps-bind m f km kf = record {
      at = λ s. let (r, t) = m s in Keeps-and_then r f s t (km.at s) kf;
    }

Fits-append_event :
    (limit : Option ℕ) (s : State) (p : Priority) (e : Event)
    → at_limit limit (queued s) ≡ false
    → Fits limit (queued (append_event p e s))
Fits-append_event none s p e h = tt
Fits-append_event (some limit) s high e h = ground (arith, length-append s.high_queue (e ∷ []))
Fits-append_event (some limit) s normal e h = ground (arith, length-append s.normal_queue (e ∷ []))

module _ (lo hi : ℕ) (limit : Option ℕ) where
  Evolves-append_event :
      (s : State) (p : Priority) (e : Event)
      → at_limit limit (queued s) ≡ false
      → Evolves lo hi limit s (append_event p e s)
  Evolves-append_event s high e h = record {
    frame = λ j _. refl;
    ever = λ j w. w;
    logs = Extends-refl s.log;
    highs = (e ∷ [], refl);
    normals = Extends-refl s.normal_queue;
    bounded = λ _. Fits-append_event limit s high e h;
  }
  Evolves-append_event s normal e h = record {
    frame = λ j _. refl;
    ever = λ j w. w;
    logs = Extends-refl s.log;
    highs = Extends-refl s.high_queue;
    normals = (e ∷ [], refl);
    bounded = λ _. Fits-append_event limit s normal e h;
  }

module _ (lo hi : ℕ) (env : Env) where
  pub Keeps-push_event :
      (e : String) (d : EventData) (p : Priority)
      → Keeps lo hi env.event_queue_limit (push_event env e d p)
  unfolding push_event raise modify queue_size if◌then◌else◌
  Keeps-push_event e d p = record {
    at = λ s. elim (Bool-cases (at_limit env.event_queue_limit (queued s))) [
      | inl full ↦ rw full (Evolves-refl lo hi env.event_queue_limit s)
      | inr room ↦ rw room (Evolves-append_event lo hi env.event_queue_limit s p _ room)
    ];
  }

pub ruleset keeps_rules = (
  Keeps-pure, Keeps-raise, Keeps-gets, Keeps-if, Keeps-get_cell, Keeps-modify_cell, Keeps-time,
  Keeps-local_time, Keeps-set_current, Keeps-set_key, Keeps-write_log, Keeps-dict_load, Keeps-bind,
  refl,
)
