-- ===== src/Users/GroupList/Roles.antt =====
-- Who can be put into the group of TAK Server's administrators.
use text.Mathlib.TextEquality.{starts_with_iff}
use text.Mathlib.TextLemmas.{nil-append, cons-append}
use fast_tak.Base.{
  none, some, ℕ, String, ◌<>◌, ◌≡◌, refl, ap, sym, ◌∙◌, Bool, true, false, not, ◌&&◌, List, [], ◌∷◌,
  ◌==◌, string_eq, arith, contains, if◌then◌else◌, All, In, here, there, Bool-cases, inl, inr,
}
use fast_tak.Users.Attributes.{Group}
use fast_tak.Base.Dict.{Dict, lookup}
use fast_tak.Users.Groups.{is_tak, tak_name, desired_tak_names, add_user_to_group, set_user_groups}
use fast_tak.Users.Groups.Calls.{set_user_groups_calls}
use fast_tak.Users.Router.{missing_groups}
use fast_tak.Users.GroupList.{drop_chars, GroupView, list_groups}

-- The names that the routes take for existing groups.
abbrev pub names : List GroupView → List String
names [] = []
names (g ∷ groups) = g.name ∷ names groups

drop-tak : (s : String) → drop_chars 4 ("tak_" <> s) ≡ s
unfolding drop_chars
drop-tak s = rw (cons-append, cons-append, cons-append, cons-append, nil-append) refl

tak-drop : (d : String) → is_tak d ≡ true → d ≡ "tak_" <> drop_chars 4 d
tak-drop d h =
    let (rest, e) = (starts_with_iff d "tak_").0 h in
    sym e ∙ ap (λ s. "tak_" <> s) (sym (drop-tak rest) ∙ ap (drop_chars 4) e)

-- The listing does not show the administrators.
not-contains-admin :
    (groups : List Group) → contains (names (list_groups groups)) "ROLE_ADMIN" ≡ false
unfolding list_groups
not-contains-admin [] = refl
not-contains-admin (g ∷ groups) =
    by_shown (is_tak g.group_name) (g.group_name == "tak_ROLE_ADMIN") refl refl
      (not-contains-admin groups)
  where
    by_shown :
        (tak admin : Bool)
        → is_tak g.group_name ≡ tak
        → (g.group_name == "tak_ROLE_ADMIN") ≡ admin
        → contains (names (list_groups groups)) "ROLE_ADMIN" ≡ false
        → contains
            (names (
              if tak && not admin
              then record { id = g.group_id; name = drop_chars 4 g.group_name } ∷ list_groups groups
              else list_groups groups))
            "ROLE_ADMIN"
          ≡ false
    by_shown false admin p q h = h
    by_shown true true p q h = h
    by_shown true false p q h = elim (string_eq.dec "ROLE_ADMIN" (drop_chars 4 g.group_name)) [
      | no differ ↦ ground (arith, differ, h)
      | yes same ↦
          let whole : g.group_name ≡ "tak_ROLE_ADMIN" =
            tak-drop g.group_name p ∙ ap (λ s. "tak_" <> s) (sym same) in
          absurd (ground (arith, whole, q))
    ]

known_one :
    (g : String) (wanted existing : List String)
    → missing_groups (g ∷ wanted) existing ≡ []
    → (contains existing g ≡ true) × (missing_groups wanted existing ≡ [])
unfolding missing_groups
known_one g wanted existing h = elim (Bool-cases (contains existing g)) [
  | inl there_is ↦ (there_is, ground (arith, h, there_is))
  | inr lacks ↦ absurd (ground (arith, h, lacks))
]

tak_name-not-admin :
    (name : String) (groups : List Group)
    → is_tak name ≡ false
    → contains (names (list_groups groups)) name ≡ true
    → ("tak_ROLE_ADMIN" == tak_name name) ≡ false
tak_name-not-admin name groups plain there_is =
    rw plain (elim (string_eq.dec "tak_ROLE_ADMIN" ("tak_" <> name)) [
      | no differ ↦ ground (arith, differ)
      | yes same ↦
          let e : name ≡ "ROLE_ADMIN" =
            sym (drop-tak name) ∙ (ap (drop_chars 4) (sym same) ∙ (unfold drop_chars in refl)) in
          absurd (ground (arith, e, there_is, not-contains-admin groups))
    ])

contains-desired :
    (name : String) (wanted : List String)
    → contains (desired_tak_names wanted) "tak_ROLE_ADMIN" ≡ false
    → ("tak_ROLE_ADMIN" == tak_name name) ≡ false
    → contains (desired_tak_names (name ∷ wanted)) "tak_ROLE_ADMIN" ≡ false
unfolding desired_tak_names
contains-desired name wanted rest own =
    by_test (contains (desired_tak_names wanted) (tak_name name))
  where
    by_test :
        (b : Bool)
        → contains
            (if b then desired_tak_names wanted else tak_name name ∷ desired_tak_names wanted)
            "tak_ROLE_ADMIN"
          ≡ false
    by_test true = rest
    by_test false = rw (own, rest) refl

plain_names_are_safe :
    (wanted : List String) (groups : List Group)
    → All (λ n. is_tak n ≡ false) wanted
    → missing_groups wanted (names (list_groups groups)) ≡ []
    → contains (desired_tak_names wanted) "tak_ROLE_ADMIN" ≡ false
plain_names_are_safe [] groups plain known = unfold desired_tak_names in refl
plain_names_are_safe (name ∷ wanted) groups (own, plain) known =
    let (there_is, rest) = known_one name wanted (names (list_groups groups)) known in
    contains-desired name wanted (plain_names_are_safe wanted groups plain rest)
      (tak_name-not-admin name groups own there_is)

contains-listed :
    (groups : List Group) (g : Group)
    → In g groups
    → is_tak g.group_name ≡ true
    → (g.group_name == "tak_ROLE_ADMIN") ≡ false
    → contains (names (list_groups groups)) (drop_chars 4 g.group_name) ≡ true
unfolding list_groups
contains-listed [] g i tak other = elim i [ ]
contains-listed (k ∷ groups) g (here e) tak other = ground (arith, e, tak, other)
contains-listed (k ∷ groups) g (there i) tak other =
    by_shown (is_tak k.group_name && not (k.group_name == "tak_ROLE_ADMIN"))
      (contains-listed groups g i tak other)
  where
    by_shown :
        (b : Bool)
        → contains (names (list_groups groups)) (drop_chars 4 g.group_name) ≡ true
        → contains
            (names (
              if b
              then record { id = k.group_id; name = drop_chars 4 k.group_name } ∷ list_groups groups
              else list_groups groups))
            (drop_chars 4 g.group_name)
          ≡ true
    by_shown true h = ground (arith, h)
    by_shown false h = h

In-contains : (name : String) (xs : List String) → In name xs → contains xs name ≡ true
In-contains name [] i = elim i [ ]
In-contains name (x ∷ xs) (here e) = ground (arith, e)
In-contains name (x ∷ xs) (there i) = ground (arith, In-contains name xs i)

-- The check of a request's groups against the listed ones keeps the user out of the group of TAK Server's
-- administrators, if no name in the request begins with `tak_` and no other group has that group's id. It does not in
-- general: where LLDAP has a group `tak_tak_ROLE_ADMIN` too, the request for `tak_ROLE_ADMIN` passes the check, and a
-- user who is no administrator yet is then put into the group `tak_ROLE_ADMIN`.
pub groups_and_role_admin :
    (groups : List Group) (current known : Dict String ℕ) (admin : ℕ)
    → ((wanted : List String)
        → All (λ n. is_tak n ≡ false) wanted
        → missing_groups wanted (names (list_groups groups)) ≡ []
        → ((name : String) → lookup name known ≡ some admin → name ≡ "tak_ROLE_ADMIN")
        → ¬ In (add_user_to_group admin) (set_user_groups wanted current known))
      × ((id : ℕ)
          → In (record { group_id = id; group_name = "tak_tak_ROLE_ADMIN" }) groups
          → lookup "tak_ROLE_ADMIN" known ≡ some admin
          → lookup "tak_ROLE_ADMIN" current ≡ none
          → (missing_groups ("tak_ROLE_ADMIN" ∷ []) (names (list_groups groups)) ≡ [])
            × In (add_user_to_group admin) (set_user_groups ("tak_ROLE_ADMIN" ∷ []) current known))
groups_and_role_admin groups current known admin = (kept_out, reached)
  where
    kept_out :
        (wanted : List String)
        → All (λ n. is_tak n ≡ false) wanted
        → missing_groups wanted (names (list_groups groups)) ≡ []
        → ((name : String) → lookup name known ≡ some admin → name ≡ "tak_ROLE_ADMIN")
        → ¬ In (add_user_to_group admin) (set_user_groups wanted current known)
    kept_out wanted plain passes own i =
        let (name, desired, absent, found) =
          (set_user_groups_calls wanted current known admin).1.0 i in
        ground (
          arith,
          own name found,
          In-contains name (desired_tak_names wanted) desired,
          plain_names_are_safe wanted groups plain passes,
        )

    reached :
        (id : ℕ)
        → In (record { group_id = id; group_name = "tak_tak_ROLE_ADMIN" }) groups
        → lookup "tak_ROLE_ADMIN" known ≡ some admin
        → lookup "tak_ROLE_ADMIN" current ≡ none
        → (missing_groups ("tak_ROLE_ADMIN" ∷ []) (names (list_groups groups)) ≡ [])
          × In (add_user_to_group admin) (set_user_groups ("tak_ROLE_ADMIN" ∷ []) current known)
    reached id i found absent =
        let listed =
          contains-listed groups (record { group_id = id; group_name = "tak_tak_ROLE_ADMIN" }) i
            refl (unfold string_eq in refl) in
        (
          unfold missing_groups drop_chars in ground (arith, listed),
          (set_user_groups_calls ("tak_ROLE_ADMIN" ∷ []) current known admin).1.1
              ("tak_ROLE_ADMIN", unfold desired_tak_names in here refl, absent, found),
        )
