-- ===== src/SEngine/Keeps/Outer.antt =====
-- The predicates, delays, watchdogs, windows and oneshots keep to the evolution rules.
use robot_person.Base.{
  ℕ, ◌≤◌, ◌<◌, Bool, true, false, Option, none, some, List, [], ◌∷◌, All, String, ℤ,
}
use robot_person.SEngine.Values.{Value, Seconds}
use robot_person.SEngine.State.{
  UserData, deadline, start_time, event_count, EventData, Env, Action, LocalTime,
}
use robot_person.SEngine.Handle.{Handle}
use robot_person.SEngine.Leaves.Pred.{
  pred_and, pred_or, pred_not, pred_nor, pred_nand, count_true, pred_xor, read_key, or_type_error,
  int_or_raise, or_zero, dict_eq, dict_ne, dict_gt, dict_ge, dict_lt, dict_le, dict_in_range,
  dict_inc_and_test, state_inc_and_test,
}
use robot_person.SEngine.Leaves.Delays.{now_or, now_ns, deadline_of, se_time_delay, se_wait_timeout}
use robot_person.SEngine.Leaves.TimeWindow.{
  Bound, mask_field_ok, and_also, fields_ok, in_window, se_wait_until_in_time_window,
  se_wait_until_out_of_time_window,
}
use robot_person.SEngine.Leaves.Verify.{
  fire_error, se_verify, start_of, se_verify_and_check_elapsed_time, count_of,
  se_verify_and_check_elapsed_events,
}
use robot_person.SEngine.Leaves.Oneshot.{dict_log, dict_inc}
use robot_person.SEngine.Keeps.{Keeps, Keeps-pure, Keeps-raise, Keeps-time, keeps_rules}
use robot_person.SEngine.Keeps.Runtime.{IsKept, child_rules}
use robot_person.SEngine.Keeps.Selection.{set_user_data-Keeps}

module _ (lo hi : ℕ) (limit : Option ℕ) where
  pub pred_and-Keeps :
      (hs : List Handle) → All (IsKept lo hi limit) hs → Keeps lo hi limit (pred_and hs)
  unfolding pred_and
  pred_and-Keeps [] k = Keeps-pure lo hi limit true
  pred_and-Keeps (h ∷ hs) k =
      let ih = pred_and-Keeps hs k.1 in let call = k.0.call in search keeps_rules depth 8

  pub pred_or-Keeps :
      (hs : List Handle) → All (IsKept lo hi limit) hs → Keeps lo hi limit (pred_or hs)
  unfolding pred_or
  pred_or-Keeps [] k = Keeps-pure lo hi limit false
  pred_or-Keeps (h ∷ hs) k =
      let ih = pred_or-Keeps hs k.1 in let call = k.0.call in search keeps_rules depth 8

  pub pred_not-Keeps :
      (hs : List Handle) → All (IsKept lo hi limit) hs → Keeps lo hi limit (pred_not hs)
  unfolding pred_not
  pred_not-Keeps (h ∷ []) k = let call = k.0.call in search keeps_rules depth 8
  pred_not-Keeps _ k = Keeps-raise lo hi limit _

  count_true-Keeps :
      (n : ℕ) (hs : List Handle) → All (IsKept lo hi limit) hs → Keeps lo hi limit (count_true n hs)
  unfolding count_true
  count_true-Keeps n [] k = Keeps-pure lo hi limit n
  count_true-Keeps n (h ∷ hs) k =
      let call = k.0.call in search (keeps_rules, λ (m : ℕ). count_true-Keeps m hs k.1) depth 8

  module _ (hs : List Handle) (k : All (IsKept lo hi limit) hs) where
    pub pred_nor-Keeps : Keeps lo hi limit (pred_nor hs)
    unfolding pred_nor
    pred_nor-Keeps = search (keeps_rules, pred_or-Keeps) depth 8

    pub pred_nand-Keeps : Keeps lo hi limit (pred_nand hs)
    unfolding pred_nand
    pred_nand-Keeps = search (keeps_rules, pred_and-Keeps) depth 8

    pub pred_xor-Keeps : Keeps lo hi limit (pred_xor hs)
    unfolding pred_xor
    pred_xor-Keeps = search (keeps_rules, count_true-Keeps) depth 8

    fire_error-Keeps : (n : ℕ) → Keeps lo hi limit (fire_error hs n)
    unfolding fire_error
    fire_error-Keeps n = search (keeps_rules, child_rules) depth 8

    pub se_verify-Keeps :
        (b : Bool) (e : String) (d : EventData) → Keeps lo hi limit (se_verify b hs e d)
    unfolding se_verify
    se_verify-Keeps b e d = search (keeps_rules, child_rules, fire_error-Keeps) depth 10

  or_type_error-Keeps : (o : Option Bool) → Keeps lo hi limit (or_type_error o)
  or_type_error-Keeps none = Keeps-raise lo hi limit _
  or_type_error-Keeps (some b) = Keeps-pure lo hi limit b

  read_key-Keeps : (key : String) → Keeps lo hi limit (read_key key)
  unfolding read_key
  read_key-Keeps key = search keeps_rules

  int_or_raise-Keeps : (o : Option ℤ) → Keeps lo hi limit (int_or_raise o)
  int_or_raise-Keeps none = Keeps-raise lo hi limit _
  int_or_raise-Keeps (some n) = Keeps-pure lo hi limit n

  or_zero-Keeps : (v : Value) → Keeps lo hi limit (or_zero v)
  unfolding or_zero
  or_zero-Keeps v = search (keeps_rules, int_or_raise-Keeps)

  -- the comparisons of a dictionary value
  module _ (key : String) (v : Value) where
    pub dict_eq-Keeps : Keeps lo hi limit (dict_eq key v)
    unfolding dict_eq
    dict_eq-Keeps = search (keeps_rules, read_key-Keeps)

    pub dict_ne-Keeps : Keeps lo hi limit (dict_ne key v)
    unfolding dict_ne
    dict_ne-Keeps = search (keeps_rules, read_key-Keeps)

    pub dict_gt-Keeps : Keeps lo hi limit (dict_gt key v)
    unfolding dict_gt
    dict_gt-Keeps = search (keeps_rules, read_key-Keeps, or_type_error-Keeps)

    pub dict_ge-Keeps : Keeps lo hi limit (dict_ge key v)
    unfolding dict_ge
    dict_ge-Keeps = search (keeps_rules, read_key-Keeps, or_type_error-Keeps)

    pub dict_lt-Keeps : Keeps lo hi limit (dict_lt key v)
    unfolding dict_lt
    dict_lt-Keeps = search (keeps_rules, read_key-Keeps, or_type_error-Keeps)

    pub dict_le-Keeps : Keeps lo hi limit (dict_le key v)
    unfolding dict_le
    dict_le-Keeps = search (keeps_rules, read_key-Keeps, or_type_error-Keeps)

    pub dict_in_range-Keeps : (w : Value) → Keeps lo hi limit (dict_in_range key v w)
    unfolding dict_in_range
    dict_in_range-Keeps w = search (keeps_rules, read_key-Keeps, or_type_error-Keeps) depth 8

  pub dict_log-Keeps : (message key : String) → Keeps lo hi limit (dict_log message key)
  unfolding dict_log
  dict_log-Keeps message key = search (keeps_rules, read_key-Keeps)

  pub dict_inc_and_test-Keeps : (key : String) (n : ℤ) → Keeps lo hi limit (dict_inc_and_test key n)
  unfolding dict_inc_and_test
  dict_inc_and_test-Keeps key n =
      search (keeps_rules, read_key-Keeps, or_type_error-Keeps, or_zero-Keeps) depth 8

  pub dict_inc-Keeps : (key : String) (n : ℤ) → Keeps lo hi limit (dict_inc key n)
  unfolding dict_inc
  dict_inc-Keeps key n = search (keeps_rules, read_key-Keeps, or_zero-Keeps) depth 8

  pub state_inc_and_test-Keeps :
      (n i : ℕ) → lo ≤ i → i < hi → Keeps lo hi limit (state_inc_and_test n i)
  unfolding state_inc_and_test
  state_inc_and_test-Keeps n i l u = search keeps_rules depth 8

  now_or-Keeps : (env : Env) (o : Option ℕ) → Keeps lo hi limit (now_or env o)
  now_or-Keeps env none = Keeps-time lo hi limit env
  now_or-Keeps env (some t) = Keeps-pure lo hi limit t

  now_ns-Keeps : (env : Env) (d : EventData) → Keeps lo hi limit (now_ns env d)
  unfolding now_ns
  now_ns-Keeps env d = now_or-Keeps env d.timestamp

  deadline_of-Keeps : (u : UserData) → Keeps lo hi limit (deadline_of u)
  deadline_of-Keeps (deadline t) = Keeps-pure lo hi limit t
  deadline_of-Keeps _ = Keeps-raise lo hi limit _

  start_of-Keeps : (u : UserData) → Keeps lo hi limit (start_of u)
  start_of-Keeps (start_time t) = Keeps-pure lo hi limit t
  start_of-Keeps _ = Keeps-raise lo hi limit _

  count_of-Keeps : (u : UserData) → Keeps lo hi limit (count_of u)
  count_of-Keeps (event_count t) = Keeps-pure lo hi limit t
  count_of-Keeps _ = Keeps-raise lo hi limit _

  module _ (env : Env) (i : ℕ) (l : lo ≤ i) (u : i < hi) (e : String) (d : EventData) where
    pub se_time_delay-Keeps : (n : Seconds) → Keeps lo hi limit (se_time_delay env n i e d)
    unfolding se_time_delay
    se_time_delay-Keeps n =
        search (keeps_rules, now_ns-Keeps, set_user_data-Keeps, deadline_of-Keeps) depth 10

    pub se_wait_timeout-Keeps :
        (t : String) (n : Seconds) → Keeps lo hi limit (se_wait_timeout env t n i e d)
    unfolding se_wait_timeout
    se_wait_timeout-Keeps t n =
        search (keeps_rules, now_ns-Keeps, set_user_data-Keeps, deadline_of-Keeps) depth 10

    pub elapsed_time-Keeps :
        (hs : List Handle) (n : ℕ) (b : Bool)
        → All (IsKept lo hi limit) hs
        → Keeps lo hi limit (se_verify_and_check_elapsed_time env n b i hs e d)
    unfolding se_verify_and_check_elapsed_time
    elapsed_time-Keeps hs n b k =
        search (keeps_rules, now_ns-Keeps, set_user_data-Keeps, start_of-Keeps, fire_error-Keeps)
          depth 12

    pub elapsed_events-Keeps :
        (hs : List Handle) (t : String) (n : ℕ) (b : Bool)
        → All (IsKept lo hi limit) hs
        → Keeps lo hi limit (se_verify_and_check_elapsed_events t n b i hs e d)
    unfolding se_verify_and_check_elapsed_events
    elapsed_events-Keeps hs t n b k =
        search (keeps_rules, set_user_data-Keeps, count_of-Keeps, fire_error-Keeps) depth 12

  mask_field_ok-Keeps : (n : ℕ) (a b : Option ℕ) → Keeps lo hi limit (mask_field_ok n a b)
  unfolding mask_field_ok
  mask_field_ok-Keeps n none none = Keeps-pure lo hi limit true
  mask_field_ok-Keeps n (some a) (some b) = Keeps-pure lo hi limit _
  mask_field_ok-Keeps n _ _ = Keeps-raise lo hi limit _

  and_also-Keeps :
      (m n : Action Bool)
      → Keeps lo hi limit m
      → Keeps lo hi limit n
      → Keeps lo hi limit (and_also m n)
  unfolding and_also
  and_also-Keeps m n km kn = search keeps_rules depth 8

  fields_ok-Keeps : (t : LocalTime) (a b : Bound) → Keeps lo hi limit (fields_ok t a b)
  unfolding fields_ok
  fields_ok-Keeps t a b = search (and_also-Keeps, mask_field_ok-Keeps) depth 8

  module _ (env : Env) (a b : Bound) where
    pub in_window-Keeps : Keeps lo hi limit (in_window env a b)
    unfolding in_window
    in_window-Keeps = search (keeps_rules, fields_ok-Keeps)

    module _ (e : String) (d : EventData) where
      pub until_in-Keeps : Keeps lo hi limit (se_wait_until_in_time_window env a b e d)
      unfolding se_wait_until_in_time_window
      until_in-Keeps = search (keeps_rules, in_window-Keeps) depth 8

      pub until_out-Keeps : Keeps lo hi limit (se_wait_until_out_of_time_window env a b e d)
      unfolding se_wait_until_out_of_time_window
      until_out-Keeps = search (keeps_rules, in_window-Keeps) depth 8
