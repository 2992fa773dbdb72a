-- ===== src/Tak/Roster.antt =====
-- What is known of a uid from the roster of TAK Server.
use fast_tak.Base.{
  ◌≡◌, refl, ◌∙◌, Bool, true, false, ◌&&◌, Option, none, some, List, [], ◌∷◌, ◌==◌, arith,
  if◌then◌else◌,
}
use fast_tak.Base.Dict.{Dict, lookup, insert, lookup-insert, lookup-nil}
use fast_tak.Base.Result.{Result, ok, err, http_exception}
use fast_tak.Base.Text.{codes_eq}
use fast_tak.Tak.{Chars, Contact, text_of, has_text, by_uid_onto, roster_of}

-- The last entry of the roster with this uid.
unfoldable pub last_of : Chars → List Contact → Option Contact
last_of uid [] = none
last_of uid (c ∷ contacts) =
    let found = last_of uid contacts in
    elim found [
      | some later ↦ some later
      | none ↦ if has_text c.uid && uid == text_of c.uid then some c else none
    ]

-- What is known of a uid: nothing where TAK Server does not answer.
abbrev pub known : Result (List Contact) → Chars → Option Contact
known (ok contacts) uid = last_of uid contacts
known (err e) uid = none

abbrev or_earlier : Option Contact → Option Contact → Option Contact
or_earlier none earlier = earlier
or_earlier (some later) earlier = some later

lookup-by_uid_onto :
    (uid : Chars) (d : Dict Chars Contact) (contacts : List Contact)
    → lookup uid (by_uid_onto d contacts) ≡ or_earlier (last_of uid contacts) (lookup uid d)
unfolding by_uid_onto last_of
lookup-by_uid_onto uid d [] = refl
lookup-by_uid_onto uid d (c ∷ contacts) =
    lookup-by_uid_onto uid (if has_text c.uid then insert (text_of c.uid) c d else d) contacts
    ∙ by_later (last_of uid contacts)
  where
    by_later :
        (later : Option Contact)
        → or_earlier later (lookup uid (if has_text c.uid then insert (text_of c.uid) c d else d))
          ≡ or_earlier
              (elim later [
                | some l ↦ some l
                | none ↦ if has_text c.uid && uid == text_of c.uid then some c else none
              ])
              (lookup uid d)
    by_later (some l) = refl
    by_later none = placed (has_text c.uid)
      where
        if_earlier :
            (b : Bool)
            → (if b then some c else lookup uid d)
              ≡ or_earlier (if b then some c else none) (lookup uid d)
        if_earlier true = refl
        if_earlier false = refl

        placed :
            (b : Bool)
            → lookup uid (if b then insert (text_of c.uid) c d else d)
              ≡ or_earlier (if b && uid == text_of c.uid then some c else none) (lookup uid d)
        placed false = refl
        placed true = lookup-insert uid (text_of c.uid) c d ∙ if_earlier (uid == text_of c.uid)

-- TAK Server answers with its roster, or the request for it fails with an HTTPException.
abbrev pub does_answer : Result (List Contact) → Bool
does_answer (ok contacts) = true
does_answer (err (http_exception status detail)) = true
does_answer (err e) = false

pub known-roster_of :
    (contacts : Result (List Contact))
    → does_answer contacts ≡ true
    → (roster : Dict Chars Contact) × (roster_of contacts ≡ ok roster)
      × ((uid : Chars) → lookup uid roster ≡ known contacts uid)
unfolding roster_of lookup last_of
known-roster_of (ok contacts) h = (
  by_uid_onto [] contacts,
  refl,
  λ uid. lookup-by_uid_onto uid [] contacts ∙ alone (last_of uid contacts),
)
  where
    alone : (o : Option Contact) → or_earlier o none ≡ o
    alone none = refl
    alone (some c) = refl
known-roster_of (err (http_exception status detail)) h = ([], refl, λ uid. lookup-nil uid)
known-roster_of (err e) h = absurd (ground (arith, h))
