-- ===== src/Users/Router/Certificates.antt =====
-- How long a generated certificate is valid, and what a revocation does.
use fast_tak.Base.{
  ℕ, String, ◌<>◌, ◌≡◌, ◌≤◌, ◌<◌, suc, ◌+◌, ◌*◌, refl, Bool, true, false, Option, none, some, List,
  [], ◌∷◌, ◌⊎◌, inl, inr, arith, if◌then◌else◌, ◌==◌, string_eq, Bool-cases, nat_eq, ap, sym, ◌∙◌,
  In, here, there,
}
use fast_tak.Base.Result.{Result, ok, err, http_exception}
use fast_tak.Users.Router.{
  User, AdminCert, Call, delete_enrollment_tokens, revoke_cert_by_name, revoke_cert_by_pem,
  revoke_cert, Backend, success, Outcome, then_do, done, with_user, validity_days, find_cert,
  delete_tokens, revoke_id, revoke_listed, revoke_name, revoke_found, revoke, respond, min, max,
}

-- A generated certificate is valid for a day at least and a year at most. It does not outlive a user who
-- expires, unless the user has less than a day left; then it is valid for one day.
-- A user whose time is up gets none.
pub validity_days_bounds :
    (now : ℕ) (expires : Option ℕ) (days : ℕ)
    → validity_days now expires ≡ some days
    → (1 ≤ days)
      × (days ≤ 365)
      × ((e : ℕ)
          → expires ≡ some e
          → (suc now ≤ e) × ((now + days * 86400 ≤ e) ⊎ ((days ≡ 1) × (e < now + 86400))))
unfolding validity_days min max
validity_days_bounds now none days h = (ground arith, ground arith, λ e p. absurd (cc))
validity_days_bounds now (some e) days h =
    (ground arith, ground arith, λ e' p. (ground arith, ground arith))

-- The calls of a request that revoked a certificate of certadmin by its id, or one on disk by its name.
pub data IsRevocation (b : Backend) (id : ℕ) (user : User)
    : Option ℕ → Option String → List Call → Type 0 where
  by_id :
      (listed : List AdminCert) (c : AdminCert) {cert_id : Option ℕ} {cert_name : Option String}
      {calls : List Call}
      → b.certs_of user.username ≡ ok listed
      → In c listed
      → cert_id ≡ some c.cert_id
      → b.has_tak_server ≡ true
      → b.revokes_pem c.certificate_pem ≡ true
      → calls
        ≡ revoke_cert_by_pem c.certificate_pem
          ∷ revoke_cert c.cert_id
          ∷ delete_enrollment_tokens id
          ∷ []
      → IsRevocation b id user cert_id cert_name calls
  by_name :
      (name : String) {cert_id : Option ℕ} {cert_name : Option String} {calls : List Call}
      → cert_id ≡ none
      → cert_name ≡ some name
      → b.revokes_name (user.username <> "-" <> name) ≡ true
      → calls
        ≡ revoke_cert_by_name (user.username <> "-" <> name) ∷ delete_enrollment_tokens id ∷ []
      → IsRevocation b id user cert_id cert_name calls

-- The calls that end in the deletion of the tokens, where they succeed.
delete_tokens-success :
    (b : Backend) (id : ℕ)
    → (delete_tokens b id).1 ≡ ok success
    → (delete_tokens b id).0 ≡ delete_enrollment_tokens id ∷ []
unfolding delete_tokens
delete_tokens-success b id = by_answer (b.deletes_tokens id)
  where
    by_answer :
        (r : Result (Unit {0}))
        → (then_do (delete_enrollment_tokens id) r (λ _. done)).1 ≡ ok success
        → (then_do (delete_enrollment_tokens id) r (λ _. done)).0 ≡ delete_enrollment_tokens id ∷ []
    by_answer (ok tt) h = unfold then_do in refl
    by_answer (err e) h = absurd (unfold then_do in cc)

then_do-success {ℓ} :
    {A : Type ℓ} (c : Call) (r : Result A) (rest : A → Outcome)
    → (then_do c r rest).1 ≡ ok success
    → (a : A) × (r ≡ ok a) × ((rest a).1 ≡ ok success) × ((then_do c r rest).0 ≡ c ∷ (rest a).0)
unfolding then_do
then_do-success c (ok a) rest h = (a, refl, h, refl)
then_do-success c (err e) rest h = absurd (cc)

find_cert-some :
    (n : ℕ) (certs : List AdminCert) (c : AdminCert)
    → find_cert n certs ≡ some c
    → (c.cert_id ≡ n) × In c certs
unfolding find_cert
find_cert-some n [] c h = absurd (cc)
find_cert-some n (d ∷ certs) c h = elim (nat_eq.dec d.cert_id n) [
  | yes same ↦
      let e : d ≡ c = ground (arith, same, h) in
      (ap (λ (x : AdminCert). x.cert_id) (sym e) ∙ same, here (sym e))
  | no other ↦
      let (same, i) = find_cert-some n certs c (ground (arith, other, h)) in (same, there i)
]

revoke_id-success :
    (b : Backend) (id : ℕ) (c : AdminCert)
    → (revoke_id b id (some c)).1 ≡ ok success
    → (b.revokes_pem c.certificate_pem ≡ true)
      × ((revoke_id b id (some c)).0
          ≡ revoke_cert_by_pem c.certificate_pem
            ∷ revoke_cert c.cert_id
            ∷ delete_enrollment_tokens id
            ∷ [])
unfolding revoke_id
revoke_id-success b id c h = elim (Bool-cases (c.certificate_pem == "")) [
  | inl no_pem ↦ absurd (ground arith)
  | inr pem ↦ elim (Bool-cases (b.revokes_pem c.certificate_pem)) [
    | inr failed ↦ absurd (ground arith)
    | inl revoked ↦
        let last = λ (_ : Bool). delete_tokens b id in
        let rest =
          λ (_ : Unit {0}). then_do (revoke_cert c.cert_id) (b.revokes_cert c.cert_id) last in
        let first = then_do (revoke_cert_by_pem c.certificate_pem) (ok tt) rest in
        let whole : revoke_id b id (some c) ≡ first = rw (pem, revoked) refl in
        let (u, e1, h1, calls1) =
          then_do-success (revoke_cert_by_pem c.certificate_pem) (ok tt) rest
            (ground (arith, whole)) in
        let (v, e2, h2, calls2) =
          then_do-success (revoke_cert c.cert_id) (b.revokes_cert c.cert_id) last h1 in
        (revoked, ground (arith, whole, calls1, calls2, delete_tokens-success b id h2))
  ]
]

revoke_name-success :
    (b : Backend) (id : ℕ) (file : String)
    → (revoke_name b id file).1 ≡ ok success
    → (b.revokes_name file ≡ true)
      × ((revoke_name b id file).0 ≡ revoke_cert_by_name file ∷ delete_enrollment_tokens id ∷ [])
unfolding revoke_name
revoke_name-success b id file h = elim (Bool-cases (b.revokes_name file)) [
  | inr failed ↦ absurd (ground arith)
  | inl revoked ↦
      let rest = λ (_ : Unit {0}). delete_tokens b id in
      let first = then_do (revoke_cert_by_name file) (ok tt) rest in
      let whole : revoke_name b id file ≡ first = rw revoked refl in
      let (u, e, h1, calls) =
        then_do-success (revoke_cert_by_name file) (ok tt) rest (ground (arith, whole)) in
      (revoked, ground (arith, whole, calls, delete_tokens-success b id h1))
]

revoke_listed-success :
    (b : Backend) (id n : ℕ) (certs : Result (List AdminCert))
    → (revoke_listed b id n certs).1 ≡ ok success
    → (listed : List AdminCert) × (c : AdminCert) × (certs ≡ ok listed)
      × In c listed
      × (c.cert_id ≡ n)
      × (b.revokes_pem c.certificate_pem ≡ true)
      × ((revoke_listed b id n certs).0
          ≡ revoke_cert_by_pem c.certificate_pem
            ∷ revoke_cert c.cert_id
            ∷ delete_enrollment_tokens id
            ∷ [])
unfolding revoke_listed
revoke_listed-success b id n (err e) h = absurd (cc)
revoke_listed-success b id n (ok certs) h = by_found (find_cert n certs) refl h
  where
    by_found :
        (found : Option AdminCert)
        → find_cert n certs ≡ found
        → (revoke_id b id found).1 ≡ ok success
        → (listed : List AdminCert) × (c : AdminCert) × (◌≡◌ {A = Result (List AdminCert)}
            (ok certs)
            (ok listed))
          × In c listed
          × (c.cert_id ≡ n)
          × (b.revokes_pem c.certificate_pem ≡ true)
          × ((revoke_id b id found).0
              ≡ revoke_cert_by_pem c.certificate_pem
                ∷ revoke_cert c.cert_id
                ∷ delete_enrollment_tokens id
                ∷ [])
    by_found none e eq = absurd (unfold revoke_id in cc)
    by_found (some c) e eq =
        let (revoked, calls) = revoke_id-success b id c eq in
        let (same, i) = find_cert-some n certs c e in (certs, c, refl, i, same, revoked, calls)

revoke_found-success :
    (b : Backend) (id : ℕ) (cert_id : Option ℕ) (cert_name : Option String) (user : User)
    → (revoke_found b id cert_id cert_name user).1 ≡ ok success
    → IsRevocation b id user cert_id cert_name (revoke_found b id cert_id cert_name user).0
unfolding revoke_found
revoke_found-success b id (some n) cert_name user h = by_client b.has_tak_server refl h
  where
    by_client :
        (has : Bool)
        → b.has_tak_server ≡ has
        → (if has
            then revoke_listed b id n (b.certs_of user.username)
            else ([], err (http_exception 503 "TAK Server not configured"))).1
          ≡ ok success
        → IsRevocation b id user
            (some n)
            cert_name
            (if has
              then revoke_listed b id n (b.certs_of user.username)
              else ([], err (http_exception 503 "TAK Server not configured"))).0
    by_client true e eq =
        let (listed, c, answered, i, same, revoked, calls) =
          revoke_listed-success b id n (b.certs_of user.username) eq in
        by_id listed c answered i (ground (arith, same)) e revoked calls
    by_client false e eq = absurd (cc)
revoke_found-success b id none (some name) user h =
    let (revoked, calls) = revoke_name-success b id (user.username <> "-" <> name) h in
    by_name name refl refl revoked calls
revoke_found-success b id none none user h = absurd (cc)

-- A revocation that is answered with success was of a certificate of a user whom the identity client
-- knows. The revocation list took the certificate: where an id was given, one with this id among those that certadmin
-- lists for this very user, or else the one on disk that the user's name and the given name make. The user's enrollment tokens were deleted after it, as the last call.
pub revoke_success :
    (is_name : String → Bool) (b : Backend) (id : ℕ) (cert_id : Option ℕ)
    (cert_name : Option String)
    → (respond is_name b (revoke id cert_id cert_name)).1 ≡ ok success
    → (user : User) × (b.get_user id ≡ ok (some user))
      × IsRevocation b id user cert_id cert_name (respond is_name b (revoke id cert_id cert_name)).0
unfolding respond
revoke_success is_name b id cert_id cert_name h = by_user (b.get_user id) refl h
  where
    by_user :
        (found : Result (Option User))
        → b.get_user id ≡ found
        → (with_user found (revoke_found b id cert_id cert_name)).1 ≡ ok success
        → (user : User) × (b.get_user id ≡ ok (some user))
          × IsRevocation b id user cert_id cert_name
              (with_user found (revoke_found b id cert_id cert_name)).0
    by_user (ok (some user)) e eq =
        unfold with_user in (user, e, revoke_found-success b id cert_id cert_name user eq)
    by_user (ok none) e eq = absurd (unfold with_user in cc)
    by_user (err x) e eq = absurd (unfold with_user in cc)
