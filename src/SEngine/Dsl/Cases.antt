-- ===== src/SEngine/Dsl/Cases.antt =====
-- What the trees of the builders and macros mean: the routes of a dispatch, the attempts of a
-- retry, the transitions of a table.
use robot_person.Base.{
  ℕ, zero, suc, ◌+◌, ◌*◌, ◌≡◌, ◌≢◌, ◌≤◌, ◌<◌, refl, ◌∙◌, ◌⊎◌, inl, inr, String, false, ◌&&◌, Option,
  none, some, List, [], ◌∷◌, ◌++◌, ap, length, length-append, get_elem?, lookup, str_eq, Bool-cases,
  if◌then◌else◌, eq_iff, arith,
}
use robot_person.SEngine.Values.{Seconds, is_negative, times_power_of_two}
use robot_person.SEngine.State.{Result, ok, raised}
use robot_person.SEngine.Routing.{next_state?}
use robot_person.SEngine.Handle.{m_call}
use robot_person.SEngine.Fn.{Fn, Node}
use robot_person.SEngine.Dsl.{
  make_node, event_dispatch, values, enumerate, machine_node, state_machine, sequence, time_delay,
}
use robot_person.SEngine.Dsl.Macros.{
  attempt, attempts_children, retry_with_backoff, check_row, machine_of, set_transition,
  transition_map, state_machine_from_table,
}

-- the child that an index of a mapping stands for
abbrev pub child_at : (ℕ → Option Node) → Option ℕ → Option Node
child_at children none = none
child_at children (some idx) = children idx

-- indices counted from `k` on
lookup-enumerate :
    (key : String) (cases : List (String × Node)) (k : ℕ) (children : ℕ → Option Node)
    → ((i : ℕ) → children (k + i) ≡ get_elem? (values cases) i)
    → child_at children (lookup key (enumerate k cases)) ≡ lookup key cases
unfolding lookup enumerate values if◌then◌else◌
lookup-enumerate key [] k children at = refl
lookup-enumerate key ((j, n) ∷ cases) k children at =
    let here : children k ≡ some n = ap children (omega arith) ∙ at 0 in
    let later =
      lookup-enumerate key cases (suc k) children (λ i. ap children (omega arith) ∙ at (suc i)) in
    elim (Bool-cases (str_eq j key)) [ inl same ↦ rw same here | inr other ↦ rw other later ]

-- In the node that `event_dispatch` builds, an event is routed to the node that the cases give it,
-- and an event without a case to none.
pub event_dispatch-route :
    (cases : List (String × Node)) (event_id : String)
    → (mapping : List (String × ℕ)) × (children : List Node) × (event_dispatch cases
        ≡ make_node (Fn.event_dispatch mapping) m_call children)
      × (child_at (get_elem? children) (lookup event_id mapping) ≡ lookup event_id cases)
unfolding event_dispatch
event_dispatch-route cases event_id = (
  enumerate 0 cases,
  values cases,
  refl,
  lookup-enumerate event_id cases 0 (get_elem? (values cases))
      (λ i. ap (get_elem? (values cases)) (omega arith)),
)

module _ {A : Type 0} where
  get_elem?-append-left :
      (xs ys : List A) (i : ℕ) → i < length xs → get_elem? (xs ++ ys) i ≡ get_elem? xs i
  get_elem?-append-left [] ys i h = absurd (omega arith)
  get_elem?-append-left (x ∷ xs) ys zero h = refl
  get_elem?-append-left (x ∷ xs) ys (suc i) h = get_elem?-append-left xs ys i (omega arith)

  get_elem?-append-right :
      (xs ys : List A) (i : ℕ) → get_elem? (xs ++ ys) (length xs + i) ≡ get_elem? ys i
  get_elem?-append-right [] ys i = ap (get_elem? ys) (omega arith)
  get_elem?-append-right (x ∷ xs) ys i =
      let e : suc (length xs) + i ≡ suc (length xs + i) = omega arith in
      rw e (get_elem?-append-right xs ys i)

le-cases : (j n : ℕ) → j ≤ suc n → (j ≤ n) ⊎ (j ≡ suc n)
le-cases j n h = ground arith

module _ (f : ℕ → Node) (base : Seconds) where
  length-attempts_children : (n : ℕ) → length (attempts_children f base (suc n)) ≡ 2 * n + 1
  unfolding attempts_children attempt
  length-attempts_children zero = refl
  length-attempts_children (suc n) = omega (
    arith,
    length-append (attempts_children f base (suc n)) (attempt f base (suc n)),
    length-attempts_children n,
  )

  -- the children of the attempts before the last one
  attempts_children-before :
      (n i : ℕ)
      → i < 2 * n + 1
      → get_elem? (attempts_children f base (suc (suc n))) i
        ≡ get_elem? (attempts_children f base (suc n)) i
  unfolding attempts_children
  attempts_children-before n i h =
      let len = length-attempts_children n in
      get_elem?-append-left (attempts_children f base (suc n)) (attempt f base (suc n)) i
        (omega arith)

  -- the children of the last attempt
  attempts_children-last :
      (n i : ℕ)
      → get_elem? (attempts_children f base (suc (suc n))) (2 * n + 1 + i)
        ≡ get_elem? (attempt f base (suc n)) i
  unfolding attempts_children
  attempts_children-last n i =
      let len = length-attempts_children n in
      ap (get_elem? (attempts_children f base (suc (suc n)))) (omega arith)
      ∙ get_elem?-append-right (attempts_children f base (suc n)) (attempt f base (suc n)) i

  attempts_children-action :
      (n j : ℕ) → j ≤ n → get_elem? (attempts_children f base (suc n)) (2 * j) ≡ some (f j)
  unfolding attempts_children attempt
  attempts_children-action zero j h = let e : j ≡ 0 = omega arith in rw e refl
  attempts_children-action (suc n) j h = elim (le-cases j n h) [
    | inl before ↦
        attempts_children-before n (2 * j) (omega arith) ∙ attempts_children-action n j before
    | inr last ↦
        let e : 2 * j ≡ 2 * n + 1 + 1 = omega arith in rw (e, last) (attempts_children-last n 1)
  ]

  attempts_children-delay :
      (n j : ℕ)
      → j < n
      → get_elem? (attempts_children f base (suc n)) (2 * j + 1)
        ≡ some (time_delay (times_power_of_two base j))
  unfolding attempt
  attempts_children-delay zero j h = absurd (omega arith)
  attempts_children-delay (suc n) j h = elim (le-cases (suc j) n h) [
    | inl before ↦
        attempts_children-before n (2 * j + 1) (omega arith) ∙ attempts_children-delay n j before
    | inr last ↦
        let e : 2 * j + 1 ≡ 2 * n + 1 + 0 = omega arith in
        let k : j ≡ n = omega arith in rw (e, k) (attempts_children-last n 0)
  ]

-- With at least one attempt, `retry_with_backoff` builds a sequence of the attempts in their order,
-- with a delay between the attempts j and j + 1 of `base * 2 ** j` seconds, and of nothing else. The
-- base is not negative.
pub retry_with_backoff-children :
    (f : ℕ → Node) (n : ℕ) (base : Seconds)
    → is_negative base ≡ false
    → (children : List Node) × (retry_with_backoff f (suc n) base ≡ ok (sequence children))
      × (length children ≡ 2 * n + 1)
      × ((j : ℕ) → j ≤ n → get_elem? children (2 * j) ≡ some (f j))
      × ((j : ℕ)
          → j < n
          → get_elem? children (2 * j + 1) ≡ some (time_delay (times_power_of_two base j)))
unfolding retry_with_backoff if◌then◌else◌
retry_with_backoff-children f n base enough = (
  attempts_children f base (suc n),
  rw enough refl,
  length-attempts_children f base n,
  attempts_children-action f base n,
  attempts_children-delay f base n,
)

-- the state that the last row for a state and an event leads to
unfoldable pub last_row :
    List (String × (String × String)) → String → String → Option String → Option String
last_row [] current event_id so_far = so_far
last_row ((frm, (ev, to)) ∷ rows) current event_id so_far =
    last_row rows current event_id
      (if str_eq frm current && str_eq ev event_id then some to else so_far)

next_state?-set_transition :
    (frm ev to current event_id : String) (map : List ((String × String) × String))
    → next_state? current event_id (set_transition frm ev to map) ≡ (
        if str_eq frm current && str_eq ev event_id
        then some to
        else next_state? current event_id map)
unfolding next_state? set_transition if◌then◌else◌
next_state?-set_transition frm ev to current event_id [] = refl
next_state?-set_transition frm ev to current event_id (((f, e), t) ∷ map) = ground (
  arith,
  eq_iff f frm,
  eq_iff e ev,
  eq_iff f current,
  eq_iff e event_id,
  eq_iff frm current,
  eq_iff ev event_id,
  next_state?-set_transition frm ev to current event_id map,
)

check_row-ok :
    {A : Type 0} (a b : Option Node) (rest : Result A) {result : A}
    → check_row a b rest ≡ ok result
    → (a ≢ none) × (b ≢ none) × (rest ≡ ok result)
unfolding check_row
check_row-ok none b rest p = absurd cc
check_row-ok (some a) none rest p = absurd cc
check_row-ok (some a) (some b) rest p = ((λ w. cc), (λ w. cc), p)

transition_map-last_row :
    (states : List (String × Node)) (rows : List (String × (String × String)))
    (map result : List ((String × String) × String)) (current event_id : String)
    → transition_map states rows map ≡ ok result
    → next_state? current event_id result
      ≡ last_row rows current event_id (next_state? current event_id map)
unfolding transition_map last_row
transition_map-last_row states [] map result current event_id p = cc
transition_map-last_row states ((frm, (ev, to)) ∷ rows) map result current event_id p =
    let (_, _, rest) = check_row-ok (lookup frm states) (lookup to states) _ p in
    let step = next_state?-set_transition frm ev to current event_id map in
    transition_map-last_row states rows (set_transition frm ev to map) result current event_id rest
    ∙ rw step refl

-- every state that a row names has an action
abbrev pub HasActions : List (String × Node) → List (String × (String × String)) → Type 0
HasActions states [] = Unit
HasActions states ((frm, (ev, to)) ∷ rows) =
    (lookup frm states ≢ none) × (lookup to states ≢ none) × HasActions states rows

transition_map-HasActions :
    (states : List (String × Node)) (rows : List (String × (String × String)))
    (map result : List ((String × String) × String))
    → transition_map states rows map ≡ ok result
    → HasActions states rows
unfolding transition_map
transition_map-HasActions states [] map result p = tt
transition_map-HasActions states ((frm, (ev, to)) ∷ rows) map result p =
    let (has_frm, has_to, rest) = check_row-ok (lookup frm states) (lookup to states) _ p in
    (
      has_frm,
      has_to,
      transition_map-HasActions states rows (set_transition frm ev to map) result rest,
    )

machine_of-ok :
    (states : List (String × Node)) (initial : String)
    (m : Result (List ((String × String) × String))) (n : Node)
    → machine_of states initial m ≡ ok n
    → (map : List ((String × String) × String)) × (m ≡ ok map)
      × (state_machine states map initial ≡ ok n)
machine_of-ok states initial (raised e) n p = absurd cc
machine_of-ok states initial (ok map) n p = (map, refl, p)

machine_node-ok :
    (o : Option Node) (states : List (String × Node)) (map : List ((String × String) × String))
    (initial : String) (n : Node)
    → machine_node o states map initial ≡ ok n
    → o ≢ none
machine_node-ok none states map initial n p = absurd cc
machine_node-ok (some a) states map initial n p = λ w. cc

-- A table that the macro accepts names only states with an action, its initial state among them,
-- and the machine built goes from a state on an event to where the last row for the two leads, and
-- nowhere if no row is for them.
pub state_machine_from_table-transitions :
    (states : List (String × Node)) (rows : List (String × (String × String))) (initial : String)
    (n : Node)
    → state_machine_from_table states rows initial ≡ ok n
    → HasActions states rows
      × (lookup initial states ≢ none)
      × ((map : List ((String × String) × String)) × (state_machine states map initial ≡ ok n)
          × ((current event_id : String)
              → next_state? current event_id map ≡ last_row rows current event_id none))
unfolding state_machine_from_table state_machine next_state?
state_machine_from_table-transitions states rows initial n p =
    let (map, q, r) = machine_of-ok states initial (transition_map states rows []) n p in
    (
      transition_map-HasActions states rows [] map q,
      machine_node-ok (lookup initial states) states map initial n r,
      (map, r, λ current event_id. transition_map-last_row states rows [] map current event_id q),
    )
