-- ===== src/SEngine/Serialize/Trust.antt =====
-- Trees on the way to the wire and back: what comes back, and which functions it can hold.
use mathlib.Core.Path.{subst, ap₂}
use robot_person.Base.{◌≡◌, refl, ap, String, Option, none, some, List, [], ◌∷◌, ◌++◌}
use robot_person.SEngine.State.{Result, ok, raised}
use robot_person.SEngine.Handle.{CallType}
use robot_person.SEngine.Serialize.{
  Param, Wire, RawTree, raw, RawTrees, no_trees, and_tree, deserialize_value, serialize_tree,
  serialize_trees, deserialize_tree, deserialize_trees, or_empty, or_empty_wire, registered, ◌>>=◌,
}
use robot_person.SEngine.Serialize.Roundtrip.{Transportable, params-Back}

-- a chain of results that returns has a first result
result->>=-ok :
    {A B : Type 0} (r : Result A) (f : A → Result B) {b : B}
    → (r >>= f) ≡ ok b
    → (a : A) × (r ≡ ok a) × (f a ≡ ok b)
result->>=-ok (ok a) f p = (a, refl, p)
result->>=-ok (raised e) f p = absurd cc

registered-ok : {F : Type 0} (o : Option F) (f : F) → registered o ≡ ok f → o ≡ some f
registered-ok none f p = absurd cc
registered-ok (some g) f p = let e : g ≡ f = cc in ap some e

module _ {F : Type 0} where
  -- the params of every node can go over the wire
  abbrev mutual
    pub TreeTransportable : RawTree F Param → Type 0
    TreeTransportable (raw f t p ks) = Transportable p × TreesTransportable ks

    pub TreesTransportable : RawTrees F Param → Type 0
    TreesTransportable no_trees = Unit
    TreesTransportable (and_tree k ks) = TreeTransportable k × TreesTransportable ks

  -- the tree with `{}` for params that are falsy
  abbrev mutual
    pub with_params : RawTree F Param → RawTree F Param
    with_params (raw f t p ks) = raw f t (or_empty p) (all_with_params ks)

    pub all_with_params : RawTrees F Param → RawTrees F Param
    all_with_params no_trees = no_trees
    all_with_params (and_tree k ks) = and_tree (with_params k) (all_with_params ks)

  -- the functions, or their names, and the call types of the nodes, each node before its children
  abbrev mutual
    pub fns : {P : Type 0} → RawTree F P → List (F × CallType)
    fns (raw f t p ks) = (f, t) ∷ fns_of ks

    pub fns_of : {P : Type 0} → RawTrees F P → List (F × CallType)
    fns_of no_trees = []
    fns_of (and_tree k ks) = fns k ++ fns_of ks

  module _ (name : F → String) (fn_registry : String → Option F)
      (named : (f : F) → fn_registry (name f) ≡ some f) where
    mutual
      unfolding serialize_tree deserialize_tree

      tree-Back :
          (t : RawTree F Param)
          → TreeTransportable t
          → (w : RawTree String Wire) × (serialize_tree name t ≡ ok w)
            × (deserialize_tree fn_registry w ≡ ok (with_params t))
      tree-Back (raw f c p ks) t =
          let (w, p1, q1) = params-Back p t.0 in
          let (ws, p2, q2) = trees-Back ks t.1 in
          (raw (name f) c w ws, rw (p1, p2) refl, rw (named f, q1, q2) refl)

      trees-Back :
          (ts : RawTrees F Param)
          → TreesTransportable ts
          → (ws : RawTrees String Wire) × (serialize_trees name ts ≡ ok ws)
            × (deserialize_trees fn_registry ws ≡ ok (all_with_params ts))
      trees-Back no_trees t = (no_trees, refl, refl)
      trees-Back (and_tree k ks) t =
          let (w, p1, q1) = tree-Back k t.0 in
          let (ws, p2, q2) = trees-Back ks t.1 in
          (and_tree w ws, rw (p1, p2) refl, rw (q1, q2) refl)

head_eq : {A : Type 0} {x y : A} {xs ys : List A} → x ∷ xs ≡ y ∷ ys → x ≡ y
head_eq h = cc

tail_eq : {A : Type 0} {x y : A} {xs ys : List A} → x ∷ xs ≡ y ∷ ys → xs ≡ ys
tail_eq h = cc

-- what the registry gives for names, with their call types
abbrev pub looked_up :
    {F : Type 0} → (String → Option F) → List (String × CallType) → List (Option F × CallType)
looked_up fn_registry [] = []
looked_up fn_registry ((n, t) ∷ names) = (fn_registry n, t) ∷ looked_up fn_registry names

abbrev pub found : {F : Type 0} → List (F × CallType) → List (Option F × CallType)
found [] = []
found ((f, t) ∷ fs) = (some f, t) ∷ found fs

module _ {F : Type 0} (fn_registry : String → Option F) where
  looked_up-append :
      (xs ys : List (String × CallType)) (fs gs : List (F × CallType))
      → looked_up fn_registry xs ≡ found fs
      → looked_up fn_registry ys ≡ found gs
      → looked_up fn_registry (xs ++ ys) ≡ found (fs ++ gs)
  looked_up-append [] ys [] gs h k = k
  looked_up-append [] ys (f ∷ fs) gs h k = cc
  looked_up-append (x ∷ xs) ys [] gs h k = cc
  looked_up-append (x ∷ xs) ys (f ∷ fs) gs h k =
      ap₂ (λ (y : Option F × CallType) (l : List (Option F × CallType)). y ∷ l) (head_eq h)
        (looked_up-append xs ys fs gs (tail_eq h) k)

  mutual
    unfolding deserialize_tree

    fns-looked_up :
        (w : RawTree String Wire) (t : RawTree F Param)
        → deserialize_tree fn_registry w ≡ ok t
        → looked_up fn_registry (fns w) ≡ found (fns t)
    fns-looked_up (raw n c w ks) t p =
        let (f, p1, r1) = result->>=-ok (registered (fn_registry n)) _ p in
        let (v, p2, r2) = result->>=-ok (deserialize_value (or_empty_wire w)) _ r1 in
        let (ts, p3, r3) = result->>=-ok (deserialize_trees fn_registry ks) _ r2 in
        let e : raw f c v ts ≡ t = cc in
        subst (λ u. looked_up fn_registry (fns (raw n c w ks)) ≡ found (fns u)) e
          (ap₂ (λ (o : Option F) (l : List (Option F × CallType)). (o, c) ∷ l)
            (registered-ok (fn_registry n) f p1) (fns_of-looked_up ks ts p3))

    fns_of-looked_up :
        (ws : RawTrees String Wire) (ts : RawTrees F Param)
        → deserialize_trees fn_registry ws ≡ ok ts
        → looked_up fn_registry (fns_of ws) ≡ found (fns_of ts)
    fns_of-looked_up no_trees ts p =
        let e : no_trees ≡ ts = cc in subst (λ us. [] ≡ found (fns_of us)) e refl
    fns_of-looked_up (and_tree k ks) ts p =
        let (u, p1, r1) = result->>=-ok (deserialize_tree fn_registry k) _ p in
        let (us, p2, r2) = result->>=-ok (deserialize_trees fn_registry ks) _ r1 in
        let e : and_tree u us ≡ ts = cc in
        subst (λ vs. looked_up fn_registry (fns_of (and_tree k ks)) ≡ found (fns_of vs)) e
          (looked_up-append (fns k) (fns_of ks) (fns u) (fns_of us) (fns-looked_up k u p1)
            (fns_of-looked_up ks us p2))

-- A tree with params that can go over the wire, with every function in the registry under its
-- name, comes back from the wire as it was, but for params that Python counts as false: these come
-- back as `{}`.
pub deserialize_tree-serialize_tree :
    {F : Type 0} (name : F → String) (fn_registry : String → Option F) (t : RawTree F Param)
    → ((f : F) → fn_registry (name f) ≡ some f)
    → TreeTransportable t
    → (w : RawTree String Wire) × (serialize_tree name t ≡ ok w)
      × (deserialize_tree fn_registry w ≡ ok (with_params t))
deserialize_tree-serialize_tree name fn_registry t named safe =
    tree-Back name fn_registry named t safe

-- A tree that comes from a wire has, node by node, the call type that the wire gives and the
-- function that the registry gives for the name in the wire: every name of the wire is registered,
-- and no other function is in the tree.
pub deserialize_tree-looked_up :
    {F : Type 0} (fn_registry : String → Option F) (w : RawTree String Wire) (t : RawTree F Param)
    → deserialize_tree fn_registry w ≡ ok t
    → looked_up fn_registry (fns w) ≡ found (fns t)
deserialize_tree-looked_up fn_registry w t p = fns-looked_up fn_registry w t p
