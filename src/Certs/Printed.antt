-- ===== src/Certs/Printed.antt =====
-- The authority's subject as openssl prints it, read back.
use mathlib.Core.List.{append_assoc}
use fast_tak.Base.{
  ◌&&◌, not, leb, contains, ℕ, String, ◌≡◌, ◌≢◌, refl, ap, ◌∙◌, Bool, true, false, List, [], ◌∷◌,
  ◌++◌, arith, nat_eq,
}
use fast_tak.Base.Text.{
  all_of, codes, strip, lstrip, rstrip, strip_prefix, after, is_space, all_space, strip-space,
}
use fast_tak.Base.Text.Strip.{strip-append}
use fast_tak.Access.{split_commas}
use fast_tak.Access.Groups.{has_comma, split_commas-append, split_commas-last}
use fast_tak.Certs.Subject.{
  Chars, CaSubject, default_subject, value_of, read_part, read_parts, parse_ca_subject,
}

-- The characters that openssl escapes or quotes, and the sign that ends a key.
abbrev special : Chars
special = b',' ∷ b'+' ∷ b';' ∷ b'<' ∷ b'>' ∷ b'=' ∷ b'#' ∷ 34 ∷ 92 ∷ []

-- A printable character of ASCII that openssl prints as it is.
abbrev pub is_plain : ℕ → Bool
is_plain c = leb 32 c && (leb c 126 && not (contains special c))

-- A value that openssl prints as it is: no empty text, without white space at its ends, of plain characters.
pub record IsValue (v : Chars) : Type 0 where
  pub ne_nil : v ≢ []
  pub trimmed : strip v ≡ v
  pub plain : all_of is_plain v ≡ true

plain-no_comma : (v : Chars) → all_of is_plain v ≡ true → has_comma v ≡ false
unfolding nat_eq
plain-no_comma [] h = refl
plain-no_comma (x ∷ v) h = ground (arith, h, plain-no_comma v)

-- `openssl x509 -subject` for such values: the older versions print spaces about the sign.
abbrev pub sign : Bool → Chars
sign true = codes " = "
sign false = codes "="

abbrev pub field : Bool → String → Chars → Chars
field spaced key v = codes key ++ (sign spaced ++ v)

abbrev pub printed_subject : Bool → Chars → Chars → Chars → Chars → Chars → Chars
printed_subject spaced country state city org_unit cn =
    field spaced "subject=C" country
    ++ (codes ", "
        ++ (field spaced "ST" state
            ++ (codes ", "
                ++ (field spaced "L" city
                    ++ (codes ", "
                        ++ (field spaced "O" (codes "TAK")
                            ++ (codes ", "
                                ++ (field spaced "OU" org_unit
                                    ++ (codes ", " ++ field spaced "CN" cn)))))))))

has_comma-append :
    (p v : Chars) → has_comma p ≡ false → has_comma v ≡ false → has_comma (p ++ v) ≡ false
has_comma-append [] v h k = k
has_comma-append (x ∷ p) v h k = ground (arith, has_comma-append p v)

sign-no_comma : (spaced : Bool) → has_comma (sign spaced) ≡ false
unfolding nat_eq
sign-no_comma true = refl
sign-no_comma false = refl

field-no_comma :
    (spaced : Bool) (key : String) (v : Chars)
    → has_comma (codes key) ≡ false
    → IsValue v
    → has_comma (field spaced key v) ≡ false
field-no_comma spaced key v h w =
    has_comma-append (codes key) (sign spaced ++ v) h
      (has_comma-append (sign spaced) v (sign-no_comma spaced) (plain-no_comma v w.plain))

-- The key and the sign in front of a value are no white space that could be stripped.
field-trimmed :
    (spaced : Bool) (c : ℕ) (key : Chars) (v : Chars)
    → is_space c ≡ false
    → IsValue v
    → strip (c ∷ (key ++ (sign spaced ++ v))) ≡ c ∷ (key ++ (sign spaced ++ v))
field-trimmed spaced c key v solid w =
    let e = strip-append c (key ++ sign spaced) v solid w.trimmed w.ne_nil in
    rw (append_assoc key (sign spaced) v) at e

-- A value behind the sign.
value-trimmed : (v : Chars) → IsValue v → strip (b' ' ∷ v) ≡ v
unfolding is_space nat_eq
value-trimmed v w = strip-space b' ' v refl ∙ w.trimmed

read_state :
    (spaced : Bool) (s : CaSubject) (v : Chars)
    → IsValue v
    → read_part s (field spaced "ST" v) ≡ record s { state = v }
unfolding read_part value_of strip_prefix after nat_eq
read_state true s v w = rw (value-trimmed v w) refl
read_state false s v w = rw w.trimmed refl

read_city :
    (spaced : Bool) (s : CaSubject) (v : Chars)
    → IsValue v
    → read_part s (field spaced "L" v) ≡ record s { city = v }
unfolding read_part value_of strip_prefix after nat_eq
read_city true s v w = rw (value-trimmed v w) refl
read_city false s v w = rw w.trimmed refl

read_org_unit :
    (spaced : Bool) (s : CaSubject) (v : Chars)
    → IsValue v
    → read_part s (field spaced "OU" v) ≡ record s { org_unit = v }
unfolding read_part value_of strip_prefix after nat_eq
read_org_unit true s v w = rw (value-trimmed v w) refl
read_org_unit false s v w = rw w.trimmed refl

-- The other parts are passed over.
abbrev IsOther : String → Type 0
IsOther key = (spaced : Bool) (s : CaSubject) (v : Chars) → read_part s (field spaced key v) ≡ s

read_country : IsOther "subject=C"
unfolding read_part strip_prefix nat_eq
read_country true s v = refl
read_country false s v = refl

read_organisation : IsOther "O"
unfolding read_part strip_prefix nat_eq
read_organisation true s v = refl
read_organisation false s v = refl

read_common_name : IsOther "CN"
unfolding read_part strip_prefix nat_eq
read_common_name true s v = refl
read_common_name false s v = refl

space-no_comma : (g : Chars) → has_comma g ≡ false → has_comma (b' ' ∷ g) ≡ false
unfolding nat_eq
space-no_comma g h = h

read_parts-cons :
    (s t : CaSubject) (part g : Chars) (parts : List Chars)
    → strip part ≡ g
    → read_part s g ≡ t
    → read_parts s (part ∷ parts) ≡ read_parts t parts
unfolding read_parts
read_parts-cons s t part g parts h e =
    ap (λ q. read_parts (read_part s q) parts) h ∙ ap (λ q. read_parts q parts) e

read_parts-next :
    (s t : CaSubject) (g rest : Chars)
    → has_comma g ≡ false
    → strip g ≡ g
    → read_part s g ≡ t
    → read_parts s (split_commas (b' ' ∷ (g ++ (codes ", " ++ rest))))
      ≡ read_parts t (split_commas (b' ' ∷ rest))
read_parts-next s t g rest no_comma trimmed e =
    rw (split_commas-append (b' ' ∷ g) (b' ' ∷ rest) (space-no_comma g no_comma)) (
      read_parts-cons s t (b' ' ∷ g) g _
        (strip-space b' ' g (unfold is_space nat_eq in refl) ∙ trimmed) e)

read_parts-last :
    (s t : CaSubject) (g : Chars)
    → has_comma g ≡ false
    → strip g ≡ g
    → read_part s g ≡ t
    → read_parts s (split_commas (b' ' ∷ g)) ≡ t
unfolding read_parts
read_parts-last s t g no_comma trimmed e =
    rw (split_commas-last (b' ' ∷ g) (space-no_comma g no_comma)) (
      read_parts-cons s t (b' ' ∷ g) g []
        (strip-space b' ' g (unfold is_space nat_eq in refl) ∙ trimmed) e)

tak-IsValue : IsValue (codes "TAK")
unfolding nat_eq strip lstrip rstrip is_space all_space
tak-IsValue = record { ne_nil = λ e. cc; trimmed = refl; plain = refl }

-- The subject that is printed for an authority with these names is read back: `parse_ca_subject`
-- gives its state, its city and its organisational unit, in both spellings of openssl. Each name must be no empty
-- text, without white space at its ends, and of printable ASCII characters that openssl neither escapes nor
-- quotes; the sign `=` and the number sign are left out too.
pub parse_ca_subject-printed_subject :
    (spaced : Bool) (country state city org_unit cn : Chars)
    → IsValue country
    → IsValue state
    → IsValue city
    → IsValue org_unit
    → IsValue cn
    → parse_ca_subject (printed_subject spaced country state city org_unit cn)
      ≡ record { state = state; city = city; org_unit = org_unit }
unfolding parse_ca_subject
parse_ca_subject-printed_subject spaced country state city org_unit cn wc ws wl wo wn =
    first
    ∙ (read_parts-next _ _ (field spaced "ST" state) _
          (field-no_comma spaced "ST" state (unfold nat_eq in refl) ws)
          (field-trimmed spaced b'S' (codes "T") state (unfold is_space nat_eq in refl) ws)
          (read_state spaced default_subject state ws)
        ∙ (read_parts-next _ _ (field spaced "L" city) _
              (field-no_comma spaced "L" city (unfold nat_eq in refl) wl)
              (field-trimmed spaced b'L' [] city (unfold is_space nat_eq in refl) wl)
              (read_city spaced _ city wl)
            ∙ (read_parts-next _ _ (field spaced "O" (codes "TAK")) _
                  (field-no_comma spaced "O" (codes "TAK") (unfold nat_eq in refl) tak-IsValue)
                  (field-trimmed spaced b'O' [] (codes "TAK") (unfold is_space nat_eq in refl)
                    tak-IsValue)
                  (read_organisation spaced _ (codes "TAK"))
                ∙ (read_parts-next _ _ (field spaced "OU" org_unit) _
                      (field-no_comma spaced "OU" org_unit (unfold nat_eq in refl) wo)
                      (field-trimmed spaced b'O' (codes "U") org_unit
                        (unfold is_space nat_eq in refl) wo)
                      (read_org_unit spaced _ org_unit wo)
                    ∙ read_parts-last _ _ (field spaced "CN" cn)
                        (field-no_comma spaced "CN" cn (unfold nat_eq in refl) wn)
                        (field-trimmed spaced b'C' (codes "N") cn (unfold is_space nat_eq in refl)
                          wn)
                        (read_common_name spaced _ cn)))))
  where
    rest : Chars
    rest =
        field spaced "ST" state
        ++ (codes ", "
            ++ (field spaced "L" city
                ++ (codes ", "
                    ++ (field spaced "O" (codes "TAK")
                        ++ (codes ", "
                            ++ (field spaced "OU" org_unit
                                ++ (codes ", " ++ field spaced "CN" cn)))))))

    first :
        read_parts default_subject
          (split_commas (printed_subject spaced country state city org_unit cn))
        ≡ read_parts default_subject (split_commas (b' ' ∷ rest))
    first =
        rw
          (split_commas-append (field spaced "subject=C" country) (b' ' ∷ rest)
            (field-no_comma spaced "subject=C" country (unfold nat_eq in refl) wc))
          (read_parts-cons default_subject default_subject (field spaced "subject=C" country) _ _
            (field-trimmed spaced b's' (codes "ubject=C") country (unfold is_space nat_eq in refl)
              wc)
            (read_country spaced default_subject country))
