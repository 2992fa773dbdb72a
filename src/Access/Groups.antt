-- ===== src/Access/Groups.antt =====
-- A route is open to exactly the users whose header names the group.
use fast_tak.Base.{
  ℕ, ◌≡◌, ◌≢◌, refl, ◌∙◌, ap, Bool, true, false, Option, none, some, List, [], ◌∷◌, ◌++◌, ◌↔◌,
  arith, All, In, here, there, contains, nat_eq,
}
use fast_tak.Base.Result.{ok}
use fast_tak.Base.Text.{codes_eq, strip, lstrip, rstrip}
use fast_tak.Access.{
  Group, cons_head, split_commas, stripped, auth_context, required_group, require_group,
}

abbrev pub has_comma : Group → Bool
has_comma g = contains g b','

-- Names that stand between commas: without commas, not empty, and without space around them.
abbrev pub AreGroups : List Group → Type 0
AreGroups = All (λ g. (has_comma g ≡ false) × (g ≢ []) × (strip g ≡ g))

-- The value of the header for these groups.
abbrev pub join_commas : List Group → List ℕ
join_commas [] = []
join_commas (g ∷ []) = g
join_commas (g ∷ h ∷ groups) = g ++ (b',' ∷ join_commas (h ∷ groups))

pub split_commas-last : (g : Group) → has_comma g ≡ false → split_commas g ≡ g ∷ []
unfolding split_commas cons_head
split_commas-last [] h = refl
split_commas-last (x ∷ g) h = ground (arith, split_commas-last g)

pub split_commas-append :
    (g : Group) (rest : List ℕ)
    → has_comma g ≡ false
    → split_commas (g ++ (b',' ∷ rest)) ≡ g ∷ split_commas rest
unfolding split_commas cons_head
split_commas-append [] rest h = ground arith
split_commas-append (x ∷ g) rest h = ground (arith, split_commas-append g rest)

stripped-group :
    (g : Group) (parts : List Group)
    → g ≢ []
    → strip g ≡ g
    → stripped (g ∷ parts) ≡ g ∷ stripped parts
unfolding stripped
stripped-group g parts ne whole = ground (arith, whole, ne)

stripped-nil : stripped (split_commas []) ≡ []
unfolding stripped split_commas strip lstrip rstrip codes_eq
stripped-nil = refl

stripped-join :
    (groups : List Group) → AreGroups groups → stripped (split_commas (join_commas groups)) ≡ groups
unfolding stripped
stripped-join [] h = stripped-nil
stripped-join (g ∷ []) ((no_comma, ne, whole), h) =
    rw (split_commas-last g no_comma) (stripped-group g [] ne whole)
stripped-join (g ∷ h ∷ groups) ((no_comma, ne, whole), rest) =
    rw (split_commas-append g (join_commas (h ∷ groups)) no_comma) (
      stripped-group g (split_commas (join_commas (h ∷ groups))) ne whole
      ∙ ap (λ (gs : List Group). g ∷ gs) (stripped-join (h ∷ groups) rest))

contains-In : (groups : List Group) (g : Group) → contains groups g ≡ true → In g groups
contains-In [] g h = absurd (cc)
contains-In (k ∷ groups) g h = elim (codes_eq.dec g k) [
  | yes same ↦ here same
  | no other ↦ there (contains-In groups g (ground (arith, other)))
]

In-contains : (groups : List Group) (g : Group) → In g groups → contains groups g ≡ true
In-contains [] g i = elim i [ ]
In-contains (k ∷ groups) g (here e) = ground (arith, e)
In-contains (k ∷ groups) g (there i) = ground (arith, In-contains groups g i)

-- A user whose header lists groups with proper names, separated by commas, passes `require_group` exactly where the
-- required group is one of them. A user without the header passes nowhere.
pub require_group_members :
    (variable user : Option Group) (default : Group) (groups : List Group)
    → AreGroups groups
    → (require_group variable default (
            auth_context (record { remote_user = user; remote_groups = some (join_commas groups) }))
          ≡ ok tt
        ↔ In (required_group variable default) groups)
      × (require_group variable default
            (auth_context (record { remote_user = user; remote_groups = none }))
          ≢ ok tt)
unfolding require_group auth_context
require_group_members variable user default groups proper =
    let required = required_group variable default in
    let read_back = stripped-join groups proper in
    (
      (
        λ passed. contains-In groups required (ground (arith, read_back, passed)),
        λ member_of. ground (arith, read_back, In-contains groups required member_of),
      ),
      λ passed. ground (arith, stripped-nil, passed),
    )
