-- ===== src/Users/Listing.antt =====
-- The listing routes of monitor/app/api/users/router.py: the pages of `list_users`, and the list of a
-- user's certificates that `list_user_certs` merges from the files on disk and from certadmin. The
-- files are given as the answers of openssl about them.
pub mod Pages
pub mod Merge
use fast_tak.Base.{
  ℕ, String, ◌+◌, ◌-◌, ◌*◌, ◌≡◌, Bool, true, false, not, ◌&&◌, ◌||◌, Option, none, some, List, [],
  ◌∷◌, ◌++◌, ◌==◌, nat_eq, string_eq, length, take, drop, leb, contains, is_some, if◌then◌else◌,
}
use fast_tak.Base.Dict.{Dict, lookup, insert}
use fast_tak.Base.Result.{Result, ok, err, http_exception, ◌>>=◌}
use fast_tak.Base.Text.{codes, codes_eq}

-- `xs[start : start + page_size]`
unfoldable pub page_of {ℓ} : {A : Type ℓ} → ℕ → ℕ → List A → List A
page_of page page_size users = take page_size (drop ((page - 1) * page_size) users)

pub record PageReply (A : Type 0) : Type 0 where
  pub results : List A
  pub count : ℕ
  pub page : ℕ
  pub page_size : ℕ

-- `Query(ge=1)` and `Query(ge=1, le=200)`
abbrev pub is_page : ℕ → ℕ → Bool
is_page page page_size = leb 1 page && (leb 1 page_size && leb page_size 200)

unfoldable pub page_reply : {A : Type 0} → ℕ → ℕ → List A → PageReply A
page_reply page page_size users = record {
  results = page_of page page_size users;
  count = length users;
  page = page;
  page_size = page_size;
}

-- `list_users`, with the users that the identity client lists.
unfoldable pub list_users : {A : Type 0} → Result (List A) → ℕ → ℕ → Result (PageReply A)
list_users users page page_size =
    if is_page page page_size
    then (users >>= λ found. ok (page_reply page page_size found))
    else err (http_exception 422 "validation error")

abbrev pub Chars : Type 0
Chars = List ℕ

-- A bundle on disk, by the part of its name after the user's: what openssl reads in the PEM file beside it,
-- if that is there.
pub record Pem : Type 0 where
  pub serial : Option Chars
  pub expiry : Option Chars
  pub fingerprint : Option Chars

pub record DiskCert : Type 0 where
  pub cert_name : Chars
  pub pem : Option Pem

-- What certadmin says of a certificate.
pub record TakCert : Type 0 where
  pub id : ℕ
  pub hash : Option Chars
  pub revocation_date : Option Chars
  pub expiration_date : Option Chars

pub record Entry : Type 0 where
  pub name : Option Chars
  pub downloadable : Bool
  pub revoked : Bool
  pub cert_id : Option ℕ
  pub expiration_date : Option Chars

-- `if text`, on a text that may be missing.
abbrev pub text_or_nil : Option Chars → Chars
text_or_nil none = []
text_or_nil (some s) = s

unfoldable pub drop_colons : Chars → Chars
drop_colons [] = []
drop_colons (x ∷ xs) = let rest = drop_colons xs in if x == b':' then rest else x ∷ rest

abbrev pub add_hash : Option (Chars × TakCert) → List Chars → List Chars
add_hash none hashes = hashes
add_hash (some (h, c)) hashes = h ∷ hashes

module _ (lower : Chars → Chars) where
  -- `_normalize_hash(c.get("hash") or "")`
  unfoldable pub hash_of : TakCert → Chars
  hash_of c = lower (drop_colons (text_or_nil c.hash))

  unfoldable pub by_hash_onto : Dict Chars TakCert → List TakCert → Dict Chars TakCert
  by_hash_onto d [] = d
  by_hash_onto d (c ∷ certs) =
      by_hash_onto (if text_or_nil c.hash == [] then d else insert (hash_of c) c d) certs

  -- `tak_by_hash`
  unfoldable pub by_hash : List TakCert → Dict Chars TakCert
  by_hash certs = by_hash_onto [] certs

  -- `serial and serial in revoked_serials`
  unfoldable pub is_revoked : List Chars → Option Pem → Bool
  is_revoked serials none = false
  is_revoked serials (some p) =
      not (text_or_nil p.serial == []) && contains serials (text_or_nil p.serial)

  abbrev pub expiry_of : Option Pem → Option Chars
  expiry_of none = none
  expiry_of (some p) = p.expiry

  -- `file_hash and file_hash in tak_by_hash`, with the certificate.
  unfoldable pub match_of : Dict Chars TakCert → Option Pem → Option (Chars × TakCert)
  match_of d none = none
  match_of d (some p) =
      if text_or_nil p.fingerprint == []
      then none
      else elim (lookup (text_or_nil p.fingerprint) d) [
        | none ↦ none
        | some c ↦ some (text_or_nil p.fingerprint, c)
      ]

  unfoldable pub disk_entry : List Chars → DiskCert → Option (Chars × TakCert) → Entry
  disk_entry serials f none = record {
    name = some f.cert_name;
    downloadable = not (is_revoked serials f.pem);
    revoked = is_revoked serials f.pem;
    cert_id = none;
    expiration_date = expiry_of f.pem;
  }
  disk_entry serials f (some (h, c)) = record {
    name = some f.cert_name;
    downloadable = not (is_revoked serials f.pem);
    revoked = is_some c.revocation_date;
    cert_id = some c.id;
    expiration_date = c.expiration_date;
  }

  -- The first loop: the entries, and the hashes that were matched.
  unfoldable pub merge_disk :
      List Chars → Dict Chars TakCert → List DiskCert → List Entry × List Chars
  merge_disk serials d [] = ([], [])
  merge_disk serials d (f ∷ files) =
      let (entries, matched) = merge_disk serials d files in
      let found = match_of d f.pem in (disk_entry serials f found ∷ entries, add_hash found matched)

  unfoldable pub tak_entry : TakCert → Entry
  tak_entry c = record {
    name = none;
    downloadable = false;
    revoked = is_some c.revocation_date;
    cert_id = some c.id;
    expiration_date = c.expiration_date;
  }

  -- The second loop: the certificates that have no file.
  unfoldable pub add_unmatched : List Chars → List TakCert → List Entry
  add_unmatched matched [] = []
  add_unmatched matched (c ∷ certs) =
      let rest = add_unmatched matched certs in
      if not (hash_of c == []) && not (contains matched (hash_of c))
      then tak_entry c ∷ rest
      else rest

  unfoldable pub list_user_certs : List Chars → List DiskCert → List TakCert → List Entry
  list_user_certs serials files certs =
      let (entries, matched) = merge_disk serials (by_hash certs) files in
      entries ++ add_unmatched matched certs
