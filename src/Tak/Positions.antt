-- ===== src/Tak/Positions.antt =====
-- The positions of cot_router (monitor/app/api/tak/positions.py). The rows of the database and the elements of a
-- parsed CoT detail are given.
use fast_tak.Base.{ℕ, Bool, not, Option, none, some, List, [], ◌∷◌, ◌==◌, nat_eq, if◌then◌else◌}
use fast_tak.Base.Dict.{Dict, insert}
use fast_tak.Base.Result.{Result, ok, err}
use fast_tak.Base.Text.{codes_eq}

abbrev pub Chars : Type 0
Chars = List ℕ

-- `a or b`
abbrev pub or_text : Option Chars → Option Chars → Option Chars
or_text none b = b
or_text (some s) b = if s == [] then b else some s

abbrev pub text_of : Option Chars → Chars
text_of none = []
text_of (some s) = s

-- A truthy text.
abbrev pub has_text : Option Chars → Bool
has_text o = not (text_of o == [])

-- The elements of a parsed CoT detail.
pub record ContactElement : Type 0 where
  pub callsign : Option Chars
  pub endpoint : Option Chars

pub record GroupElement : Type 0 where
  pub name : Option Chars
  pub role : Option Chars

pub record Detail : Type 0 where
  pub callsign : Option Chars
  pub endpoint : Option Chars
  pub team : Option Chars
  pub role : Option Chars

-- An attribute that is kept only if it is not empty.
abbrev pub kept : Option Chars → Option Chars
kept o = or_text o none

unfoldable pub contact_part : Option ContactElement → Option Chars × Option Chars
contact_part none = (none, none)
contact_part (some e) = (kept e.callsign, kept e.endpoint)

unfoldable pub group_part : Option GroupElement → Option Chars × Option Chars
group_part none = (none, none)
group_part (some e) = (kept e.name, kept e.role)

-- `_parse_detail`, with what `find` gives in the parsed XML, or `none` where there is no XML.
unfoldable pub parse_detail : Option (Option ContactElement × Option GroupElement) → Detail
parse_detail none = record { callsign = none; endpoint = none; team = none; role = none }
parse_detail (some (contact, group)) = record {
  callsign = (contact_part contact).0;
  endpoint = (contact_part contact).1;
  team = (group_part group).0;
  role = (group_part group).1;
}

-- A row of cot_router. The coordinates are texts of the database.
pub record Lkp : Type 0 where
  pub lat : Option Chars
  pub lon : Option Chars
  pub hae : Option Chars
  pub servertime : Chars
  pub cot_type : Chars

pub record Position : Type 0 where
  pub uid : Chars
  pub lkp : Lkp
  pub detail : Detail

-- `get_recent_lkp`: without prefixes the database is not asked, and its errors are raised.
unfoldable pub get_recent_lkp : List Chars → Result (List Position) → Result (List Position)
get_recent_lkp [] rows = ok []
get_recent_lkp (p ∷ prefixes) rows = rows

unfoldable pub positions_of : Dict Chars Lkp → List (Chars × Lkp) → Dict Chars Lkp
positions_of d [] = d
positions_of d ((uid, p) ∷ rows) = positions_of (insert uid p d) rows

-- `get_lkp_for_uids`: a failed query gives no positions.
unfoldable pub get_lkp_for_uids : List Chars → Result (List (Chars × Lkp)) → Dict Chars Lkp
get_lkp_for_uids [] rows = []
get_lkp_for_uids (u ∷ uids) (ok rows) = positions_of [] rows
get_lkp_for_uids (u ∷ uids) (err e) = []
