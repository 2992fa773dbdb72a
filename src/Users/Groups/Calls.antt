-- ===== src/Users/Groups/Calls.antt =====
-- Which memberships change, and which do not.
use mathlib.Core.Path.{subst}
use fast_tak.Base.{
  ℕ, String, ◌≡◌, refl, ap, Bool, true, false, not, ◌&&◌, Option, none, some, List, [], ◌∷◌, ◌++◌,
  ◌⊎◌, ◌↔◌, inl, inr, arith, In, here, there, contains, string_eq, is_some, if◌then◌else◌,
}
use fast_tak.Base.Dict.{Dict, lookup}
use fast_tak.Users.Groups.{
  GroupCall, remove_user_from_group, add_user_to_group, is_tak, desired_tak_names, removals, add_if,
  additions, set_user_groups,
}

-- The call is one of a list that was put together from two.
In-append : (c : GroupCall) (xs ys : List GroupCall) → In c (xs ++ ys) ↔ (In c xs ⊎ In c ys)
In-append c [] ys = ((λ i. inr i), λ e. elim e [ inl i ↦ elim i [ ] | inr i ↦ i ])
In-append c (x ∷ xs) ys = (
  λ i. elim i [
    | here e ↦ inl (here e)
    | there j ↦ elim ((In-append c xs ys).0 j) [ inl k ↦ inl (there k) | inr k ↦ inr k ]
  ],
  λ e. elim e [
    | inl i ↦ elim i [ here p ↦ here p | there j ↦ there ((In-append c xs ys).1 (inl j)) ]
    | inr k ↦ there ((In-append c xs ys).1 (inr k))
  ],
)

removed_only :
    (desired : List String) (current : Dict String ℕ) (id : ℕ)
    → In (remove_user_from_group id) (removals desired current)
    → (name : String) × In (name, id) current
      × (is_tak name ≡ true)
      × (contains desired name ≡ false)
unfolding removals
removed_only desired [] id i = elim i [ ]
removed_only desired ((name, n) ∷ current) id i =
    by_test (is_tak name && not (contains desired name)) refl (removed_only desired current id) i
  where
    by_test :
        (b : Bool)
        → (is_tak name && not (contains desired name)) ≡ b
        → (In (remove_user_from_group id) (removals desired current)
            → (m : String) × In (m, id) current × (is_tak m ≡ true) × (contains desired m ≡ false))
        → In (remove_user_from_group id) (
            if b
            then remove_user_from_group n ∷ removals desired current
            else removals desired current)
        → (m : String) × In (m, id) ((name, n) ∷ current)
          × (is_tak m ≡ true)
          × (contains desired m ≡ false)
    by_test true e later (here p) = (name, here (cc), ground arith, ground arith)
    by_test true e later (there j) = let (m, k, t, d) = later j in (m, there k, t, d)
    by_test false e later j = let (m, k, t, d) = later j in (m, there k, t, d)

added_only :
    (desired : List String) (current known : Dict String ℕ) (id : ℕ)
    → In (add_user_to_group id) (additions desired current known)
    → (name : String) × In name desired
      × (lookup name current ≡ none)
      × (lookup name known ≡ some id)
unfolding additions
added_only [] current known id i = elim i [ ]
added_only (name ∷ desired) current known id i =
    by_test (is_some (lookup name current)) (lookup name known) refl refl
      (added_only desired current known id) i
  where
    by_test :
        (b : Bool) (o : Option ℕ)
        → is_some (lookup name current) ≡ b
        → lookup name known ≡ o
        → (In (add_user_to_group id) (additions desired current known)
            → (m : String) × In m desired × (lookup m current ≡ none) × (lookup m known ≡ some id))
        → In (add_user_to_group id) (add_if (not b) o (additions desired current known))
        → (m : String) × In m (name ∷ desired)
          × (lookup m current ≡ none)
          × (lookup m known ≡ some id)
    by_test false (some n) e k later (here p) =
        (name, here refl, ground arith, ground (arith, k, p))
    by_test false (some n) e k later (there j) = let (m, q, t, d) = later j in (m, there q, t, d)
    by_test false none e k later j = let (m, q, t, d) = later j in (m, there q, t, d)
    by_test true o e k later j = let (m, q, t, d) = later j in (m, there q, t, d)

no_addition :
    (desired : List String) (current : Dict String ℕ) (id : ℕ)
    → ¬ In (add_user_to_group id) (removals desired current)
unfolding removals
no_addition desired [] id i = elim i [ ]
no_addition desired ((name, n) ∷ current) id i =
    by_test (is_tak name && not (contains desired name)) (no_addition desired current id) i
  where
    by_test :
        (b : Bool)
        → ¬ In (add_user_to_group id) (removals desired current)
        → ¬ In (add_user_to_group id) (
            if b
            then remove_user_from_group n ∷ removals desired current
            else removals desired current)
    by_test true later (here p) = cc
    by_test true later (there j) = later j
    by_test false later j = later j

no_removal :
    (desired : List String) (current known : Dict String ℕ) (id : ℕ)
    → ¬ In (remove_user_from_group id) (additions desired current known)
unfolding additions
no_removal [] current known id i = elim i [ ]
no_removal (name ∷ desired) current known id i =
    by_test (not (is_some (lookup name current))) (lookup name known)
      (no_removal desired current known id) i
  where
    by_test :
        (b : Bool) (o : Option ℕ)
        → ¬ In (remove_user_from_group id) (additions desired current known)
        → ¬ In (remove_user_from_group id) (add_if b o (additions desired current known))
    by_test true (some n) later (here p) = cc
    by_test true (some n) later (there j) = later j
    by_test true none later j = later j
    by_test false o later j = later j

In-removals :
    (desired : List String) (current : Dict String ℕ) (name : String) (id : ℕ)
    → In (name, id) current
    → is_tak name ≡ true
    → contains desired name ≡ false
    → In (remove_user_from_group id) (removals desired current)
unfolding removals
In-removals desired [] name id i tak undesired = elim i [ ]
In-removals desired ((m, n) ∷ current) name id (here e) tak undesired =
    let same : name ≡ m = ap (λ (p : String × ℕ). p.0) e in
    let number : id ≡ n = ap (λ (p : String × ℕ). p.1) e in
    let test : (is_tak m && not (contains desired m)) ≡ true =
      subst (λ (k : String). (is_tak k && not (contains desired k)) ≡ true) same
        (rw (tak, undesired) refl) in
    rw test (here (ap remove_user_from_group number))
In-removals desired ((m, n) ∷ current) name id (there i) tak undesired =
    by_test (is_tak m && not (contains desired m))
      (In-removals desired current name id i tak undesired)
  where
    by_test :
        (b : Bool)
        → In (remove_user_from_group id) (removals desired current)
        → In (remove_user_from_group id) (
            if b
            then remove_user_from_group n ∷ removals desired current
            else removals desired current)
    by_test true later = there later
    by_test false later = later

In-additions :
    (desired : List String) (current known : Dict String ℕ) (name : String) (id : ℕ)
    → In name desired
    → lookup name current ≡ none
    → lookup name known ≡ some id
    → In (add_user_to_group id) (additions desired current known)
unfolding additions
In-additions [] current known name id i absent found = elim i [ ]
In-additions (m ∷ desired) current known name id (here e) absent found =
    rw
      (
        subst (λ (k : String). lookup k current ≡ none) e absent,
        subst (λ (k : String). lookup k known ≡ some id) e found,
      )
      (here refl)
In-additions (m ∷ desired) current known name id (there i) absent found =
    by_test (not (is_some (lookup m current))) (lookup m known)
      (In-additions desired current known name id i absent found)
  where
    by_test :
        (b : Bool) (o : Option ℕ)
        → In (add_user_to_group id) (additions desired current known)
        → In (add_user_to_group id) (add_if b o (additions desired current known))
    by_test true (some n) later = there later
    by_test true none later = later
    by_test false o later = later

-- A replacement takes the user out of a group exactly where the user is in it, its name begins with `tak_`, and
-- it is none of the desired ones. It adds the user to a group exactly where its name is desired and LLDAP
-- has the group, and the user is not in it. This is for calls that LLDAP accepts, one after the other.
pub set_user_groups_calls :
    (names : List String) (current known : Dict String ℕ) (id : ℕ)
    → (In (remove_user_from_group id) (set_user_groups names current known) ↔ (
        (name : String) × In (name, id) current
        × (is_tak name ≡ true)
        × (contains (desired_tak_names names) name ≡ false)))
      × (In (add_user_to_group id) (set_user_groups names current known) ↔ (
          (name : String) × In name (desired_tak_names names)
          × (lookup name current ≡ none)
          × (lookup name known ≡ some id)))
unfolding set_user_groups
set_user_groups_calls names current known id =
    let desired = desired_tak_names names in
    let out = removals desired current in
    let new = additions desired current known in
    (
      (
        λ i. elim ((In-append (remove_user_from_group id) out new).0 i) [
          | inl j ↦ removed_only desired current id j
          | inr j ↦ absurd (no_removal desired current known id j)
        ],
        λ (name, member_of, tak, undesired).
            (In-append (remove_user_from_group id) out new).1
              (inl (In-removals desired current name id member_of tak undesired)),
      ),
      (
        λ i. elim ((In-append (add_user_to_group id) out new).0 i) [
          | inl j ↦ absurd (no_addition desired current id j)
          | inr j ↦ added_only desired current known id j
        ],
        λ (name, wanted, absent, found).
            (In-append (add_user_to_group id) out new).1
              (inr (In-additions desired current known name id wanted absent found)),
      ),
    )
