-- ===== src/Audit/Redaction.antt =====
-- Nothing under a secret name reaches an audit event.
use mathlib.Core.Path.{subst}
use fast_tak.Base.{
  ℕ, String, ◌≡◌, refl, sym, ap, ◌∙◌, Bool, true, false, not, Option, none, some, [], ◌∷◌, ◌↔◌,
  arith, leb, In, here, there, Bool-cases, inl, inr, if◌then◌else◌, ◌<◌,
}
use fast_tak.Base.Python.{Python}
use fast_tak.Audit.{
  Json, leaf, array, object, Items, no_items, item, Members, no_members, member, is_secret,
  redacted, sanitise, sanitise_items, sanitise_members, Body, no_body, no_json, json, Event,
  body_of, is_mutating, dispatch,
}

module _ (py : Python) where
  open py use {Num}

  -- Every member with a secret name, at any depth, holds the mark and nothing else.
  abbrev mutual
    pub IsRedacted : Json Num → Type 0
    IsRedacted (leaf s) = Unit
    IsRedacted (array items) = AreItemsRedacted items
    IsRedacted (object members) = AreMembersRedacted members

    pub AreItemsRedacted : Items Num → Type 0
    AreItemsRedacted no_items = Unit
    AreItemsRedacted (item j rest) = IsRedacted j × AreItemsRedacted rest

    pub AreMembersRedacted : Members Num → Type 0
    AreMembersRedacted no_members = Unit
    AreMembersRedacted (member key j rest) =
        (is_secret py key ≡ true → j ≡ redacted py) × IsRedacted j × AreMembersRedacted rest

  IsRedacted-choice :
      (key : String) (secret : Bool) (clean : Json Num)
      → is_secret py key ≡ secret
      → IsRedacted clean
      → (is_secret py key ≡ true → (if secret then redacted py else clean) ≡ redacted py)
        × IsRedacted (if secret then redacted py else clean)
  IsRedacted-choice key true clean e h = ((λ s. refl), tt)
  IsRedacted-choice key false clean e h = ((λ s. absurd (cc)), h)

  mutual
    unfolding sanitise

    pub sanitise-IsRedacted : (j : Json Num) → IsRedacted (sanitise py j)
    sanitise-IsRedacted (leaf s) = tt
    sanitise-IsRedacted (array items) = sanitise_items-AreItemsRedacted items
    sanitise-IsRedacted (object members) = sanitise_members-AreMembersRedacted members

    pub sanitise_items-AreItemsRedacted :
        (items : Items Num) → AreItemsRedacted (sanitise_items py items)
    sanitise_items-AreItemsRedacted no_items = tt
    sanitise_items-AreItemsRedacted (item j rest) =
        (sanitise-IsRedacted j, sanitise_items-AreItemsRedacted rest)

    pub sanitise_members-AreMembersRedacted :
        (members : Members Num) → AreMembersRedacted (sanitise_members py members)
    sanitise_members-AreMembersRedacted no_members = tt
    sanitise_members-AreMembersRedacted (member key j rest) =
        let (marked, clean) =
          IsRedacted-choice key (is_secret py key) (sanitise py j) refl (sanitise-IsRedacted j) in
        (marked, clean, sanitise_members-AreMembersRedacted rest)

  -- A redacted value is left as it is.
  mutual
    unfolding sanitise

    redacted_is_kept : (j : Json Num) → IsRedacted j → sanitise py j ≡ j
    redacted_is_kept (leaf s) h = refl
    redacted_is_kept (array items) h = ap array (redacted_items_are_kept items h)
    redacted_is_kept (object members) h = ap object (redacted_members_are_kept members h)

    redacted_items_are_kept :
        (items : Items Num) → AreItemsRedacted items → sanitise_items py items ≡ items
    redacted_items_are_kept no_items h = refl
    redacted_items_are_kept (item j rest) (own, others) =
        cc (redacted_is_kept j own, redacted_items_are_kept rest others)

    redacted_members_are_kept :
        (members : Members Num) → AreMembersRedacted members → sanitise_members py members ≡ members
    redacted_members_are_kept no_members h = refl
    redacted_members_are_kept (member key j rest) (marked, own, others) =
        elim (Bool-cases (is_secret py key)) [
          | inl secret ↦
              ground (arith, secret, marked secret, redacted_members_are_kept rest others)
          | inr open_name ↦
              ground
                (arith, open_name, redacted_is_kept j own, redacted_members_are_kept rest others)
        ]

  -- `_sanitise` leaves a value alone exactly when every member with a secret name already holds the mark, at
  -- any depth, and what it gives is always such a value.
  pub sanitise_fixed :
      (j : Json Num) → IsRedacted (sanitise py j) × (sanitise py j ≡ j ↔ IsRedacted j)
  sanitise_fixed j = (
    sanitise-IsRedacted j,
    (λ same. subst IsRedacted same (sanitise-IsRedacted j), redacted_is_kept j),
  )

  body_of-IsRedacted : (body : Body py) (j : Json Num) → body_of py body ≡ some j → IsRedacted j
  body_of-IsRedacted no_body j h = absurd (cc)
  body_of-IsRedacted no_json j h = subst is_redacted h tt
    where
      is_redacted : Option (Json Num) → Type 0
      is_redacted none = Unit
      is_redacted (some k) = IsRedacted k
  body_of-IsRedacted (json k) j h = subst is_redacted h (sanitise-IsRedacted k)
    where
      is_redacted : Option (Json Num) → Type 0
      is_redacted none = Unit
      is_redacted (some k') = IsRedacted k'

  -- An event of a request tells of a mutating method and of an answer below 400, with the actor and the path
  -- of the request, and no member with a secret name, at any depth of its body, holds anything but the mark.
  pub dispatch_events :
      (actor method path : String) (body : Body py) (status : ℕ) (e : Event py)
      → In e (dispatch py actor method path body status)
      → (is_mutating py method ≡ true)
        × (status < 400)
        × (e.actor ≡ actor)
        × (e.path ≡ path)
        × ((j : Json Num) → e.request_body ≡ some j → IsRedacted j)
  unfolding dispatch
  dispatch_events actor method path body status e i =
      by_tests (is_mutating py method) (leb 400 status) refl refl i
    where
      recorded : Event py
      recorded = record {
        actor = actor;
        method = method;
        path = path;
        status = status;
        request_body = body_of py body;
      }

      by_tests :
          (mutating refused : Bool)
          → is_mutating py method ≡ mutating
          → leb 400 status ≡ refused
          → In e (if not mutating then [] else if refused then [] else recorded ∷ [])
          → (is_mutating py method ≡ true)
            × (status < 400)
            × (e.actor ≡ actor)
            × (e.path ≡ path)
            × ((j : Json Num) → e.request_body ≡ some j → IsRedacted j)
      by_tests false refused p q k = elim k [ ]
      by_tests true true p q k = elim k [ ]
      by_tests true false p q (there k) = elim k [ ]
      by_tests true false p q (here same) = (
        p,
        ground arith,
        ap (λ (x : Event py). x.actor) same,
        ap (λ (x : Event py). x.path) same,
        λ j h. body_of-IsRedacted body j (sym (ap (λ (x : Event py). x.request_body) same) ∙ h),
      )
