-- ===== src/Tak/Filled.antt =====
-- What a row of the recent contacts is filled with.
use fast_tak.Base.{none, some, ◌≡◌, ◌↔◌, refl, sym, true, false, Option, [], arith}
use mathlib.Core.Path.{subst}
use fast_tak.Base.Text.{codes_eq}
use fast_tak.Tak.{or_text, of_contact, Chars, Contact, Position, RecentRow, has_text, recent_row}

-- The value is the first one, unless that has no text in it; then it is the second one.
abbrev pub IsFirstOf : Option Chars → Option Chars → Option Chars → Type 0
IsFirstOf first second value =
    (has_text first ≡ true → value ≡ first) × (has_text first ≡ false → value ≡ second)

-- What the roster entry says, if there is one.
abbrev pub entry_field : (Contact → Option Chars) → Option Contact → Option Chars
entry_field field none = none
entry_field field (some c) = field c

-- The fields of a row: the callsign, the team and the role from the roster entry, or else from the
-- detail; the client, the groups and the notes from the roster entry; and the position itself.
pub record IsFilled (p : Position) (contact : Option Contact) (row : RecentRow) : Type 0 where
  pub uid : row.uid ≡ p.uid
  pub callsign : IsFirstOf (entry_field (λ c. c.callsign) contact) p.detail.callsign row.callsign
  pub team : IsFirstOf (entry_field (λ c. c.team) contact) p.detail.team row.team
  pub role : IsFirstOf (entry_field (λ c. c.role) contact) p.detail.role row.role
  pub takv : row.takv ≡ entry_field (λ c. c.takv) contact
  pub filter_groups : row.filter_groups ≡ entry_field (λ c. c.filter_groups) contact
  pub notes : row.notes ≡ entry_field (λ c. c.notes) contact
  pub lkp : row.lkp ≡ p.lkp

or_text-IsFirstOf : (a b : Option Chars) → IsFirstOf a b (or_text a b)
unfolding codes_eq
or_text-IsFirstOf none b = (λ h. cc, λ h. refl)
or_text-IsFirstOf (some s) b = (λ h. ground (arith, h), λ h. ground (arith, h))

IsFirstOf-or_text : (a b value : Option Chars) → IsFirstOf a b value → value ≡ or_text a b
unfolding codes_eq
IsFirstOf-or_text none b value h = h.1 refl
IsFirstOf-or_text (some s) b value h = elim (codes_eq.dec s []) [
  | yes empty ↦ ground (arith, empty, h.1 (ground (arith, empty)))
  | no text ↦ ground (arith, text, h.0 (ground (arith, text)))
]

entry_field-of_contact :
    (contact : Option Contact) (field : Contact → Option Chars)
    → of_contact contact field ≡ entry_field field contact
entry_field-of_contact none field = refl
entry_field-of_contact (some c) field = refl

pub recent_row-IsFilled :
    (p : Position) (contact : Option Contact) (row : RecentRow)
    → (row ≡ recent_row p contact) ↔ IsFilled p contact row
unfolding recent_row
recent_row-IsFilled p contact row =
    (λ e. subst (IsFilled p contact) (sym e) (filled contact), λ h. whole contact h)
  where
    filled : (contact : Option Contact) → IsFilled p contact (recent_row p contact)
    filled none = record {
      uid = refl;
      callsign = or_text-IsFirstOf none p.detail.callsign;
      team = or_text-IsFirstOf none p.detail.team;
      role = or_text-IsFirstOf none p.detail.role;
      takv = refl;
      filter_groups = refl;
      notes = refl;
      lkp = refl;
    }
    filled (some c) = record {
      uid = refl;
      callsign = or_text-IsFirstOf c.callsign p.detail.callsign;
      team = or_text-IsFirstOf c.team p.detail.team;
      role = or_text-IsFirstOf c.role p.detail.role;
      takv = refl;
      filter_groups = refl;
      notes = refl;
      lkp = refl;
    }

    whole : (contact : Option Contact) → IsFilled p contact row → row ≡ recent_row p contact
    whole contact h =
        let callsign =
          IsFirstOf-or_text (entry_field (λ c. c.callsign) contact) p.detail.callsign row.callsign
            h.callsign in
        let team =
          IsFirstOf-or_text (entry_field (λ c. c.team) contact) p.detail.team row.team h.team in
        let role =
          IsFirstOf-or_text (entry_field (λ c. c.role) contact) p.detail.role row.role h.role in
        rw
          (
            entry_field-of_contact contact (λ c. c.callsign),
            entry_field-of_contact contact (λ c. c.team),
            entry_field-of_contact contact (λ c. c.role),
            entry_field-of_contact contact (λ c. c.takv),
            entry_field-of_contact contact (λ c. c.filter_groups),
            entry_field-of_contact contact (λ c. c.notes),
            ← h.uid,
            ← callsign,
            ← team,
            ← role,
            ← h.takv,
            ← h.filter_groups,
            ← h.notes,
            ← h.lkp,
          )
          refl
