-- ===== src/Users/Revocation/Laws.antt =====
-- When a revocation is complete, and whose certificates it is of.
use mathlib.Core.List.{append_assoc}
use fast_tak.Base.{
  String, ◌≢◌, ◌⊎◌, Option-cases, ◌≡◌, refl, sym, Bool, true, ◌&&◌, Option, none, some, List, [],
  ◌∷◌, ◌++◌, ◌↔◌, inl, inr, arith, All, string_eq, Bool-cases, In, here, there,
}
use fast_tak.Base.Result.{Result, ok, err, http_error}
use fast_tak.Base.Text.{codes, codes_eq, strip_prefix-append, before_suffix-append}
use fast_tak.Backup.Names.{Name}
use fast_tak.Users.Revocation.{
  AdminCert, Container, is_valid_name, matches_user, found_files, failures, is_empty,
  revoke_certs_on_disk_for_user, list_user_certs, revokes_by_pem, revoke_admin_cert,
  revoke_admin_certs, revoke_listed, revoke_all_user_certs,
}

-- The container could be reached, and its list took every file that the pattern of the user's name fits.
abbrev pub IsClearedOnDisk : Name → Option Container → Type 0
IsClearedOnDisk username c =
    (k : Container) × (c ≡ some k)
    × (is_valid_name username ≡ true)
    × (k.find_ok ≡ true)
    × ((f : Name) → In f k.files → matches_user username f ≡ true → k.revokes_file f ≡ true)

-- The certificate was revoked before, or it has a text, and the list of a container that can be reached took it.
abbrev pub IsOut : Option Container → AdminCert → Type 0
IsOut c cert =
    ((date : String) × (cert.revocation_date ≡ some date))
    ⊎ ((cert.certificate_pem ≢ "")
        × ((k : Container) × (c ≡ some k) × (k.revokes_pem cert.certificate_pem ≡ true)))

revokes_by_pem-true :
    (c : Option Container) (pem : String)
    → revokes_by_pem c pem ≡ true ↔ ((k : Container) × (c ≡ some k) × (k.revokes_pem pem ≡ true))
unfolding revokes_by_pem
revokes_by_pem-true none pem = (λ h. absurd (cc), λ (k, e, taken). absurd (cc))
revokes_by_pem-true (some c) pem = (λ h. (c, refl, h), λ (k, e, taken). ground (arith, e, taken))

revoke_admin_cert-true :
    (c : Option Container) (cert : AdminCert) → revoke_admin_cert c cert ≡ true ↔ IsOut c cert
unfolding revoke_admin_cert
revoke_admin_cert-true c cert = elim (Option-cases cert.revocation_date) [
  | inr (date, dated) ↦ (λ h. inl (date, dated), λ out. rw dated refl)
  | inl undated ↦ elim (string_eq.dec cert.certificate_pem "") [
    | yes empty ↦ (
      λ h. absurd (ground (arith, undated, empty, h)),
      λ out. elim out [
        | inl (date, dated) ↦ absurd (ground (arith, undated, dated))
        | inr (text, taken) ↦ absurd (text empty)
      ],
    )
    | no text ↦ (
      λ h.
          inr (
            text,
            (revokes_by_pem-true c cert.certificate_pem).0 (ground (arith, undated, text, h)),
          ),
      λ out. elim out [
        | inl (date, dated) ↦ absurd (ground (arith, undated, dated))
        | inr (text', taken) ↦
            ground (arith, undated, text, (revokes_by_pem-true c cert.certificate_pem).1 taken)
      ],
    )
  ]
]

revoke_admin_certs-true :
    (c : Option Container) (all_ok : Bool) (certs : List AdminCert)
    → revoke_admin_certs c all_ok certs ≡ true
    → (all_ok ≡ true) × All (IsOut c) certs
unfolding revoke_admin_certs
revoke_admin_certs-true c all_ok [] h = (h, tt)
revoke_admin_certs-true c all_ok (cert ∷ certs) h =
    let (both, rest) = revoke_admin_certs-true c (revoke_admin_cert c cert && all_ok) certs h in
    (ground arith, ((revoke_admin_cert-true c cert).0 (ground arith), rest))

true-revoke_admin_certs :
    (c : Option Container) (certs : List AdminCert)
    → All (IsOut c) certs
    → revoke_admin_certs c true certs ≡ true
unfolding revoke_admin_certs
true-revoke_admin_certs c [] all = refl
true-revoke_admin_certs c (cert ∷ certs) (own, all) =
    rw ((revoke_admin_cert-true c cert).1 own) (true-revoke_admin_certs c certs all)

failures-none :
    (username : Name) (revokes : Name → Bool) (files : List Name)
    → is_empty (failures revokes (found_files username files)) ≡ true
    → (f : Name) → In f files
    → matches_user username f ≡ true
    → revokes f ≡ true
unfolding failures found_files is_empty
failures-none username revokes [] h f i m = elim i [ ]
failures-none username revokes (g ∷ files) h f (here e) m = ground (arith, e)
failures-none username revokes (g ∷ files) h f (there i) m =
    failures-none username revokes files (ground arith) f i m

none-failures :
    (username : Name) (revokes : Name → Bool) (files : List Name)
    → ((f : Name) → In f files → matches_user username f ≡ true → revokes f ≡ true)
    → is_empty (failures revokes (found_files username files)) ≡ true
unfolding failures found_files is_empty
none-failures username revokes [] all = refl
none-failures username revokes (g ∷ files) all =
    let rest = none-failures username revokes files (λ f i m. all f (there i) m) in
    elim (Bool-cases (matches_user username g)) [
      | inl m ↦ ground (arith, m, rest, all g (here refl) m)
      | inr differs ↦ ground (arith, differs, rest)
    ]

cleared-true :
    (username : Name) (c : Option Container)
    → revoke_certs_on_disk_for_user username c ≡ true ↔ IsClearedOnDisk username c
unfolding revoke_certs_on_disk_for_user
cleared-true username none = (λ h. absurd (cc), λ (k, e, valid, found, all). absurd (cc))
cleared-true username (some c) = (
  λ h. (
    c,
    refl,
    ground arith,
    ground arith,
    failures-none username c.revokes_file c.files (ground arith),
  ),
  λ (k, e, valid, found, all).
      ground (arith, e, valid, found, none-failures username k.revokes_file k.files all),
)

revoke_listed-true :
    (c : Option Container) (all_ok : Bool) (certs : Result (List AdminCert))
    → revoke_listed c all_ok certs ≡ ok true
      ↔ ((all_ok ≡ true) × ((listed : List AdminCert) × (certs ≡ ok listed) × All (IsOut c) listed))
unfolding revoke_listed
revoke_listed-true c all_ok (ok certs) = (
  λ h.
      let (whole, all) = revoke_admin_certs-true c all_ok certs (ground arith) in
      (whole, (certs, refl, all)),
  λ (whole, (listed, e, all)). ground (arith, whole, e, true-revoke_admin_certs c listed all),
)
revoke_listed-true c all_ok (err x) = (λ h. absurd (cc), λ (whole, (listed, e, all)). absurd (cc))

pub revoke_all_user_certs-true :
    (username : Name) (c : Option Container) (query : Result (List AdminCert))
    → (revoke_all_user_certs username c query ≡ ok true ↔ (
        IsClearedOnDisk username c
        × ((listed : List AdminCert) × (list_user_certs query ≡ ok listed) × All (IsOut c) listed)))
      × (revoke_all_user_certs username c (err http_error) ≡ ok true ↔ IsClearedOnDisk username c)
revoke_all_user_certs-true username c query = (
  all_out query,
  (
    λ h. ((all_out (err http_error)).0 h).0,
    λ cleared. (all_out (err http_error)).1 (cleared, ([], unfold list_user_certs in refl, tt)),
  ),
)
  where
    all_out :
        (query : Result (List AdminCert))
        → revoke_all_user_certs username c query ≡ ok true ↔ (
            IsClearedOnDisk username c
            × ((listed : List AdminCert) × (list_user_certs query ≡ ok listed)
                × All (IsOut c) listed))
    all_out query =
        let both =
          revoke_listed-true c (revoke_certs_on_disk_for_user username c) (list_user_certs query) in
        let disk = cleared-true username c in
        unfold revoke_all_user_certs in
        (
          λ h. let (whole, listed) = both.0 h in (disk.0 whole, listed),
          λ (whole, listed). both.1 (disk.1 whole, listed),
        )

-- The file of a certificate that `generate_user_cert` names.
abbrev pub cert_file : Name → Name → Name
cert_file username name = username ++ (codes "-" ++ (name ++ codes ".pem"))

matches_user-whole :
    (username rest file : Name)
    → file ≡ (username ++ codes "-") ++ (rest ++ codes ".pem")
    → matches_user username file ≡ true
unfolding matches_user
matches_user-whole username rest file e = ground (
  arith,
  e,
  strip_prefix-append (username ++ codes "-") (rest ++ codes ".pem"),
  before_suffix-append rest (codes ".pem"),
)

-- A user's pattern fits each certificate of that user, and also each certificate of another user whose name is
-- this user's with a hyphen and more behind it: revoking the one user's certificates revokes
-- the other's.
pub matches_user_longer :
    (username more name : Name)
    → (matches_user username (cert_file username name) ≡ true)
      × (matches_user username (cert_file (username ++ (codes "-" ++ more)) name) ≡ true)
matches_user_longer username more name = (
  matches_user-whole username name (cert_file username name)
      (sym (append_assoc username (codes "-") (name ++ codes ".pem"))),
  matches_user-whole username (more ++ (codes "-" ++ name))
      (cert_file (username ++ (codes "-" ++ more)) name) (simp append_assoc),
)
