-- ===== src/Tak/Shown.antt =====
-- Which positions the recent contacts show.
use fast_tak.Base.{
  ℕ, ◌≡◌, ◌↔◌, ◌⊎◌, inl, inr, refl, ap, sym, ◌∙◌, Bool, true, false, not, ◌&&◌, ◌||◌, Option, List,
  [], ◌∷◌, arith, is_some, if◌then◌else◌, In, here, there,
}
use mathlib.Core.Path.{subst}
use fast_tak.Base.Dict.{Dict, lookup}
use fast_tak.Base.Result.{Result, ok}
use fast_tak.Base.Text.{codes_eq}
use fast_tak.Tak.{
  Chars, Contact, Position, RecentRow, has_text, is_service_uid, is_passed, recent_row, recent_rows,
  roster_of, join_rows, or_setting, window_of, get_recent_lkp, recent_contacts,
}
use fast_tak.Tak.Roster.{known, does_answer, known-roster_of}
use fast_tak.Tak.Filled.{IsFilled, recent_row-IsFilled}

-- A row without a roster entry and without an endpoint is passed over where a TAK client is asked for.
gate :
    (req known endpoint : Bool)
    → ((req && (not known && not endpoint)) ≡ false)
      ↔ ((req ≡ true) → (known ≡ true) ⊎ (endpoint ≡ true))
gate false known endpoint = ((λ e h. ground arith), (λ f. refl))
gate true true endpoint = ((λ e h. inl refl), (λ f. refl))
gate true false true = ((λ e h. inr refl), (λ f. refl))
gate true false false = ((λ e h. ground arith), (λ f. neither (f refl)))
  where
    neither : (false ≡ true) ⊎ (false ≡ true) → true ≡ false
    neither (inl e) = sym e
    neither (inr e) = sym e

hide : (incl service : Bool) → ((not incl && service) ≡ false) ↔ ((incl ≡ false) → service ≡ false)
hide true service = ((λ e h. ground arith), (λ f. refl))
hide false service = ((λ e h. e), (λ f. f refl))

or_false : (a b : Bool) → ((a || b) ≡ false) ↔ ((a ≡ false) × (b ≡ false))
or_false true b = ((λ e. absurd (ground arith)), (λ h. h.0))
or_false false b = ((λ e. (refl, e)), (λ h. h.1))

module _ (lower : Chars → Chars) where
  -- The position is to be shown: no service account that is left out has it, and it is of a TAK client
  -- where that is asked for, by the roster or by its own endpoint.
  abbrev pub IsShown : Chars → Bool → Bool → Position → Option Contact → Type 0
  IsShown setting include_service require_tak_client p contact =
      ((include_service ≡ false) → is_service_uid lower setting contact ≡ false)
      × ((require_tak_client ≡ true)
          → (is_some contact ≡ true) ⊎ (has_text p.detail.endpoint ≡ true))

  is_passed-false :
      (setting : Chars) (include_service require_tak_client : Bool) (p : Position)
      (contact : Option Contact)
      → (is_passed lower setting include_service require_tak_client p contact ≡ false)
        ↔ IsShown setting include_service require_tak_client p contact
  unfolding is_passed
  is_passed-false setting include_service require_tak_client p contact =
      let hidden = hide include_service (is_service_uid lower setting contact) in
      let gated = gate require_tak_client (is_some contact) (has_text p.detail.endpoint) in
      let both =
        or_false (not include_service && is_service_uid lower setting contact)
          (require_tak_client && (not (is_some contact) && not (has_text p.detail.endpoint))) in
      (
        (λ e. (hidden.0 (both.0 e).0, gated.0 (both.0 e).1)),
        (λ h. both.1 (hidden.1 h.0, gated.1 h.1)),
      )

module _ (lower : Chars → Chars) (setting : Chars) (include_service require : Bool) where
  abbrev IsMade : (Chars → Option Contact) → List Position → RecentRow → Type 0
  IsMade seen positions row =
      (p : Position) × In p positions
      × IsShown lower setting include_service require p (seen p.uid)
      × (row ≡ recent_row p (seen p.uid))

  step-IsMade :
      (seen : Chars → Option Contact) (p : Position) (positions : List Position) (row : RecentRow)
      (passed : Bool) (rest : List RecentRow)
      → (passed ≡ false) ↔ IsShown lower setting include_service require p (seen p.uid)
      → In row rest ↔ IsMade seen positions row
      → In row (if passed then rest else recent_row p (seen p.uid) ∷ rest)
        ↔ IsMade seen (p ∷ positions) row
  step-IsMade seen p positions row passed rest shown ind = (to passed refl, from passed refl)
    where
      later : IsMade seen positions row → IsMade seen (p ∷ positions) row
      later (q, i, shows, made) = (q, there i, shows, made)

      to :
          (c : Bool)
          → passed ≡ c
          → In row (if c then rest else recent_row p (seen p.uid) ∷ rest)
          → IsMade seen (p ∷ positions) row
      to true e i = later (ind.0 i)
      to false e (there i) = later (ind.0 i)
      to false e (here made) = (p, here refl, shown.0 e, made)

      first :
          (c : Bool)
          → passed ≡ c
          → IsShown lower setting include_service require p (seen p.uid)
          → row ≡ recent_row p (seen p.uid)
          → In row (if c then rest else recent_row p (seen p.uid) ∷ rest)
      first false e shows made = here made
      first true e shows made = absurd (ground (arith, e, shown.1 shows))

      from :
          (c : Bool)
          → passed ≡ c
          → IsMade seen (p ∷ positions) row
          → In row (if c then rest else recent_row p (seen p.uid) ∷ rest)
      from true e (q, there i, shows, made) = ind.1 (q, i, shows, made)
      from false e (q, there i, shows, made) = there (ind.1 (q, i, shows, made))
      from c e (q, here same, shows, made) =
          let (shows_p, made_p) =
            subst
              (λ r.
                IsShown lower setting include_service require r (seen r.uid)
                × (row ≡ recent_row r (seen r.uid)))
              same (shows, made) in
          first c e shows_p made_p

  In-recent_rows :
      (roster : Dict Chars Contact) (positions : List Position) (row : RecentRow)
      → In row (recent_rows lower setting include_service require roster positions)
        ↔ IsMade (λ uid. lookup uid roster) positions row
  unfolding recent_rows
  In-recent_rows roster [] row = ((λ i. elim i [ ]), (λ h. elim h.1 [ ]))
  In-recent_rows roster (p ∷ positions) row =
      step-IsMade (λ uid. lookup uid roster) p positions row
        (is_passed lower setting include_service require p (lookup p.uid roster))
        (recent_rows lower setting include_service require roster positions)
        (is_passed-false lower setting include_service require p (lookup p.uid roster))
        (In-recent_rows roster positions row)

  IsMade-ap :
      (seen known_of : Chars → Option Contact) (positions : List Position) (row : RecentRow)
      → ((uid : Chars) → seen uid ≡ known_of uid)
      → IsMade seen positions row
      → IsMade known_of positions row
  IsMade-ap seen known_of positions row same (q, i, shows, made) = (
    q,
    i,
    subst (IsShown lower setting include_service require q) (same q.uid) shows,
    made ∙ ap (recent_row q) (same q.uid),
  )

  -- The row is that of a position that is to be shown, filled with what is known of its uid.
  abbrev pub IsRowOf : (Chars → Option Contact) → List Position → RecentRow → Type 0
  IsRowOf seen positions row =
      (p : Position) × In p positions
      × IsShown lower setting include_service require p (seen p.uid)
      × IsFilled p (seen p.uid) row

  IsMade-IsRowOf :
      (seen : Chars → Option Contact) (positions : List Position) (row : RecentRow)
      → IsMade seen positions row ↔ IsRowOf seen positions row
  IsMade-IsRowOf seen positions row = (
    λ (p, i, shows, made). (p, i, shows, (recent_row-IsFilled p (seen p.uid) row).0 made),
    λ (p, i, shows, filled). (p, i, shows, (recent_row-IsFilled p (seen p.uid) row).1 filled),
  )

-- Where a prefix of CoT types is set, the query for the window gives positions, and TAK Server answers with its roster
-- or the request for it fails with an HTTPException, the recent contacts are answered. They have a row exactly for
-- each position that is not of a roster entry of a service account, unless these are asked for, and, where only TAK
-- clients are asked for, has a roster entry or an endpoint. The callsign, the team and the
-- role of the row are those of the last roster entry of the uid, or, where that has none, of the position's detail; its
-- other fields are those of the roster entry and of the position. Without an answer of TAK Server no uid has a roster entry.
pub recent_contacts_show :
    (lower : Chars → Chars) (setting : Chars) (lkp_require : Bool) (prefix : Chars)
    (prefixes : List Chars) (max_age : Option ℕ) (include_service : Bool) (require : Option Bool)
    (query : ℕ → Result (List Position)) (contacts : Result (List Contact))
    (positions : List Position)
    → query (window_of max_age) ≡ ok positions
    → does_answer contacts ≡ true
    → (rows : List RecentRow) × (recent_contacts lower setting lkp_require
          (prefix ∷ prefixes)
          max_age
          include_service
          require
          query
          contacts
        ≡ ok rows)
      × ((row : RecentRow)
          → In row rows
            ↔ IsRowOf lower setting include_service
                (or_setting require lkp_require)
                (known contacts)
                positions
                row)
unfolding recent_contacts get_recent_lkp join_rows
recent_contacts_show lower setting lkp_require prefix prefixes max_age include_service require query
      contacts positions answers answered =
    let (roster, reads, looks) = known-roster_of contacts answered in
    let shown = or_setting require lkp_require in
    (
      recent_rows lower setting include_service shown roster positions,
      ap (λ r. join_rows lower setting include_service shown r (roster_of contacts)) answers
          ∙ ap (join_rows lower setting include_service shown (ok positions)) reads,
      λ row. (
        λ i. (IsMade-IsRowOf lower setting include_service shown (known contacts) positions row).0 (
            IsMade-ap lower setting include_service shown (λ uid. lookup uid roster)
              (known contacts) positions row looks
              ((In-recent_rows lower setting include_service shown roster positions row).0 i)),
        λ h. (In-recent_rows lower setting include_service shown roster positions row).1 (
            IsMade-ap lower setting include_service shown (known contacts)
              (λ uid. lookup uid roster) positions row (λ uid. sym (looks uid))
              ((IsMade-IsRowOf lower setting include_service shown (known contacts) positions row).1
                h)),
      ),
    )
