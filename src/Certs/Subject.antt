-- ===== src/Certs/Subject.antt =====
-- The subject of the authority's certificate (`parse_ca_subject` of
-- monitor/app/api/service_accounts/cert_gen.py), over code points.
use fast_tak.Base.{ℕ, Bool, ◌||◌, List, [], ◌∷◌, nat_eq, is_some, if◌then◌else◌}
use fast_tak.Base.Text.{codes, strip, strip_prefix, after}
use fast_tak.Access.{split_commas}

abbrev pub Chars : Type 0
Chars = List ℕ

pub record CaSubject : Type 0 where
  pub state : Chars
  pub city : Chars
  pub org_unit : Chars

abbrev pub default_subject : CaSubject
default_subject = record { state = codes "XX"; city = codes "Default"; org_unit = codes "FastTAK" }

-- `part.startswith(p)`
abbrev pub starts : Chars → Chars → Bool
starts p part = is_some (strip_prefix p part)

-- `part.split("=", 1)[1].strip()`
unfoldable pub value_of : Chars → Chars
value_of part = strip (after b'=' part)

-- One turn of the loop, with the part stripped.
unfoldable pub read_part : CaSubject → Chars → CaSubject
read_part s part =
    if starts (codes "ST=") part || starts (codes "ST =") part
    then record s { state = value_of part }
    else if starts (codes "L=") part || starts (codes "L =") part
    then record s { city = value_of part }
    else if starts (codes "OU=") part || starts (codes "OU =") part
    then record s { org_unit = value_of part }
    else s

unfoldable pub read_parts : CaSubject → List Chars → CaSubject
read_parts s [] = s
read_parts s (part ∷ parts) = read_parts (read_part s (strip part)) parts

unfoldable pub parse_ca_subject : Chars → CaSubject
parse_ca_subject line = read_parts default_subject (split_commas line)
