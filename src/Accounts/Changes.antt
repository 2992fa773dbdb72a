-- ===== src/Accounts/Changes.antt =====
-- What an update, a deletion and a download of a service account rest on.
use fast_tak.Base.{
  ℕ, ◌≡◌, ◌↔◌, inl, inr, refl, sym, ◌∙◌, Bool, true, false, not, ◌&&◌, Option, none, some, List, [],
  ◌∷◌, arith, All, In, Bool-cases, is_some, contains, if◌then◌else◌,
}
use fast_tak.Base.Result.{Result, ok, err, http_exception}
use fast_tak.Base.Text.{codes, codes_eq, strip_prefix}
use fast_tak.Backup.Names.{Name}
use fast_tak.Certs.Subject.{Chars}
use fast_tak.Accounts.{
  Account, Call, Services, served, Outcome, missing_of, unless_missing, with_groups, with_account,
  apply_update, has_type, update_checked, update_service_account, CertFiles, is_revoked_serial,
  download_found, download_cert, has_groups,
}

-- The route found the account of a service.
abbrev pub IsFound : Services → ℕ → Account → Type 0
IsFound s id a =
    (s.get_user id ≡ ok (some a)) × (is_some (strip_prefix (codes "svc_") a.username) ≡ true)

-- The account may be in these groups, each of which the identity provider has.
abbrev pub AreAllowed : Services → Account → Option (List Chars) → Type 0
AreAllowed s a none = Unit
AreAllowed s a (some groups) =
    (has_type a.fastak_user_type (codes "svc_admin") ≡ false)
    × ((has_type a.fastak_user_type (codes "svc_data") && not (has_groups (some groups))) ≡ false)
    × (existing : List Chars) × (s.group_names ≡ ok existing)
    × All (λ g. contains existing g ≡ true) groups

missing_of-none :
    (groups existing : List Chars)
    → missing_of groups existing ≡ []
    → All (λ g. contains existing g ≡ true) groups
unfolding missing_of
missing_of-none [] existing h = tt
missing_of-none (g ∷ groups) existing h =
    (ground arith, missing_of-none groups existing (ground arith))

In-with_groups :
    (known : Result (List Chars)) (groups : List Chars) (rest : Outcome) (c : Call)
    → In c (with_groups known groups rest).0
    → (existing : List Chars) × (known ≡ ok existing) × All (λ g. contains existing g ≡ true) groups
unfolding with_groups
In-with_groups (err e) groups rest c i = elim i [ ]
In-with_groups (ok existing) groups rest c i =
    (existing, refl, by_missing (missing_of groups existing) refl i)
  where
    by_missing :
        (missing : List Chars)
        → missing_of groups existing ≡ missing
        → In c (unless_missing missing rest).0
        → All (λ g. contains existing g ≡ true) groups
    by_missing [] e j = missing_of-none groups existing e
    by_missing (g ∷ missing) e j = unfold unless_missing in elim j [ ]

In-update_checked :
    (s : Services) (id : ℕ) (name : Option Chars) (groups : Option (List Chars)) (a : Account)
    (c : Call)
    → In c (update_checked s id name groups a).0
    → AreAllowed s a groups
unfolding update_checked
In-update_checked s id name none a c i = tt
In-update_checked s id name (some groups) a c i =
    by_type (has_type a.fastak_user_type (codes "svc_admin"))
      (has_type a.fastak_user_type (codes "svc_data") && not (has_groups (some groups))) i
  where
    by_type :
        (admin bare : Bool)
        → In c
            (if admin
              then ([], err (http_exception 400 "Admin mode service accounts cannot have groups"))
              else if bare
              then (
                [],
                err (http_exception 400 "Data mode service accounts require at least one group"),
              )
              else with_groups s.group_names groups (apply_update s id name (some groups))).0
        → (admin ≡ false)
          × (bare ≡ false)
          × (existing : List Chars) × (s.group_names ≡ ok existing)
          × All (λ g. contains existing g ≡ true) groups
    by_type true bare j = elim j [ ]
    by_type false true j = elim j [ ]
    by_type false false j =
        let (existing, known, all) = In-with_groups s.group_names groups _ c j in
        (refl, refl, existing, known, all)

In-with_account :
    (found : Result (Option Account)) (rest : Account → Outcome) (c : Call)
    → In c (with_account found rest).0
    → (a : Account) × (found ≡ ok (some a))
      × (is_some (strip_prefix (codes "svc_") a.username) ≡ true)
      × In c (rest a).0
unfolding with_account
In-with_account (err e) rest c i = elim i [ ]
In-with_account (ok none) rest c i = elim i [ ]
In-with_account (ok (some a)) rest c i =
    by_prefix (is_some (strip_prefix (codes "svc_") a.username)) refl i
  where
    by_prefix :
        (b : Bool)
        → is_some (strip_prefix (codes "svc_") a.username) ≡ b
        → In c (if b then rest a else ([], err (http_exception 404 "Service account not found"))).0
        → (k : Account) × (ok (some a) ≡ ok (some k))
          × (is_some (strip_prefix (codes "svc_") k.username) ≡ true)
          × In c (rest k).0
    by_prefix true e j = (a, refl, e, j)
    by_prefix false e j = elim j [ ]

-- The validation of an update is atomic: a call that changes the account is made only where the id is
-- that of a service account, and, if groups are given, the account is no admin account, a data
-- account keeps at least one group, and the identity provider has every one of the groups.
pub update_service_account_checks :
    (s : Services) (id : ℕ) (name : Option Chars) (groups : Option (List Chars)) (c : Call)
    → In c (update_service_account s id name groups).0
    → (a : Account) × IsFound s id a × AreAllowed s a groups
unfolding update_service_account
update_service_account_checks s id name groups c i =
    let (a, found, svc, j) =
      In-with_account (s.get_user id) (update_checked s id name groups) c i in
    (a, (found, svc), In-update_checked s id name groups a c j)

-- The account's certificate is there, and it is not known to be revoked.
abbrev pub IsServable : CertFiles → Account → Type 0
IsServable files a =
    (files.has_p12 a.username ≡ true)
    × ((files.has_pem a.username && is_revoked_serial files (files.serial a.username)) ≡ false)

download_found-served :
    (files : CertFiles) (a : Account) {name : Name}
    → (download_found files a ≡ ([], ok (served name))) ↔ ((name ≡ a.username) × IsServable files a)
unfolding download_found
download_found-served files a {name} =
    ((λ h. (ground arith, (ground arith, ground arith))), (λ h. ground (arith, h.0, h.1.0, h.1.1)))

with_account-found :
    (a : Account) (rest : Account → Outcome)
    → is_some (strip_prefix (codes "svc_") a.username) ≡ true
    → with_account (ok (some a)) rest ≡ rest a
unfolding with_account
with_account-found a rest svc = rw svc refl

with_account-other :
    (a : Account) (rest : Account → Outcome)
    → is_some (strip_prefix (codes "svc_") a.username) ≡ false
    → with_account (ok (some a)) rest ≡ ([], err (http_exception 404 "Service account not found"))
unfolding with_account
with_account-other a rest other = rw other refl

-- A download serves a bundle exactly when the id is that of a service account, the bundle is the
-- account's and there, and no serial that can be read from its PEM file is on the revocation list.
pub download_cert_serves :
    (s : Services) (files : CertFiles) (id : ℕ) (name : Name)
    → (download_cert s files id ≡ ([], ok (served name)))
      ↔ ((a : Account) × IsFound s id a × (name ≡ a.username) × IsServable files a)
unfolding download_cert
download_cert_serves s files id name = (forward (s.get_user id), backward)
  where
    forward :
        (found : Result (Option Account))
        → with_account found (download_found files) ≡ ([], ok (served name))
        → (a : Account) × ((found ≡ ok (some a))
            × (is_some (strip_prefix (codes "svc_") a.username) ≡ true))
          × (name ≡ a.username)
          × IsServable files a
    forward (err e) h = unfold with_account in ground arith
    forward (ok none) h = unfold with_account in ground arith
    forward (ok (some a)) h = elim (Bool-cases (is_some (strip_prefix (codes "svc_") a.username))) [
      | inl svc ↦
          let (e, servable) =
            (download_found-served files a).0
              (sym (with_account-found a (download_found files) svc) ∙ h) in
          (a, (refl, svc), e, servable)
      | inr other ↦ ground (arith, with_account-other a (download_found files) other)
    ]

    backward :
        (a : Account) × IsFound s id a × (name ≡ a.username) × IsServable files a
        → with_account (s.get_user id) (download_found files) ≡ ([], ok (served name))
    backward (a, (found, svc), e, servable) = rw found (
        with_account-found a (download_found files) svc
        ∙ (download_found-served files a).1 (e, servable))
