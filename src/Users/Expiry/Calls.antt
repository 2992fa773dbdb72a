-- ===== src/Users/Expiry/Calls.antt =====
-- Which calls a pass makes: exactly those it should, whatever happened to the users before.
use mathlib.Core.Path.{subst}
use fast_tak.Base.{
  ℕ, String, ◌≡◌, refl, sym, Bool, true, false, Option, none, some, List, [], ◌∷◌, ◌++◌, ◌⊎◌, inl,
  inr, ◌↔◌, In, here, there, Bool-cases, if◌then◌else◌,
}
use fast_tak.Base.Result.{Result, ok, err}
use fast_tak.Base.Python.{Python}
use fast_tak.Users.Attributes.{LdapUser, is_pending, is_active}
use fast_tak.Users.Expiry.{
  ServiceCall, deactivate_user, mark_certs_revoked, Services, pending_users, mark_if, revoke_with,
  after_deactivation, check_user, check_users, check_user_expiry,
}

In-append_left : (c : ServiceCall) (xs ys : List ServiceCall) → In c xs → In c (xs ++ ys)
In-append_left c [] ys i = elim i [ ]
In-append_left c (x ∷ xs) ys (here e) = here e
In-append_left c (x ∷ xs) ys (there i) = there (In-append_left c xs ys i)

In-append_right : (c : ServiceCall) (xs ys : List ServiceCall) → In c ys → In c (xs ++ ys)
In-append_right c [] ys i = i
In-append_right c (x ∷ xs) ys i = there (In-append_right c xs ys i)

In-append : (c : ServiceCall) (xs ys : List ServiceCall) → In c (xs ++ ys) → In c xs ⊎ In c ys
In-append c [] ys i = inr i
In-append c (x ∷ xs) ys (here e) = inl (here e)
In-append c (x ∷ xs) ys (there i) = elim (In-append c xs ys i) [
  | inl j ↦ inl (there j)
  | inr j ↦ inr j
]

In-cons_if :
    (b : Bool) (v u : LdapUser) (rest : List LdapUser)
    → In u (if b then v ∷ rest else rest)
    → ((u ≡ v) × (b ≡ true)) ⊎ In u rest
In-cons_if true v u rest (here e) = inl (e, refl)
In-cons_if true v u rest (there i) = inr i
In-cons_if false v u rest i = inr i

cons_if-here :
    (b : Bool) (v u : LdapUser) (rest : List LdapUser)
    → u ≡ v
    → b ≡ true
    → In u (if b then v ∷ rest else rest)
cons_if-here true v u rest e h = here e
cons_if-here false v u rest e h = absurd (cc)

cons_if-there :
    (b : Bool) (v u : LdapUser) (rest : List LdapUser)
    → In u rest
    → In u (if b then v ∷ rest else rest)
cons_if-there true v u rest i = there i
cons_if-there false v u rest i = i

module _ (py : Python) (read_int : String → Option py.Num) (numeric_id : String → ℕ) where
  open py use {Num}

  In-check_users :
      (s : Services) (c : ServiceCall) (users : List LdapUser)
      → In c (check_users py read_int numeric_id s users)
      → (u : LdapUser) × In u users × In c (check_user py read_int numeric_id s u)
  unfolding check_users
  In-check_users s c [] i = elim i [ ]
  In-check_users s c (u ∷ users) i =
      elim (In-append c (check_user py read_int numeric_id s u)
        (check_users py read_int numeric_id s users) i) [
          | inl j ↦ (u, here refl, j)
          | inr j ↦ let (v, k, made) = In-check_users s c users j in (v, there k, made)
        ]

  check_users-In :
      (s : Services) (c : ServiceCall) (u : LdapUser) (users : List LdapUser)
      → In u users
      → In c (check_user py read_int numeric_id s u)
      → In c (check_users py read_int numeric_id s users)
  unfolding check_users
  check_users-In s c u [] i made = elim i [ ]
  check_users-In s c u (v ∷ users) (here e) made =
      In-append_left c _ _
        (subst (λ (w : LdapUser). In c (check_user py read_int numeric_id s w)) e made)
  check_users-In s c u (v ∷ users) (there i) made =
      In-append_right c (check_user py read_int numeric_id s v) _
        (check_users-In s c u users i made)

  In-pending_users :
      (now : Num) (u : LdapUser) (users : List LdapUser)
      → In u (pending_users py read_int numeric_id now users)
      → In u users × (is_pending py read_int now u.attributes ≡ true)
  unfolding pending_users
  In-pending_users now u [] i = elim i [ ]
  In-pending_users now u (v ∷ users) i =
      elim (In-cons_if (is_pending py read_int now v.attributes) v u
        (pending_users py read_int numeric_id now users) i) [
          | inl (e, pending) ↦ (
            here e,
            subst (λ (w : LdapUser). is_pending py read_int now w.attributes ≡ true) (sym e)
                pending,
          )
          | inr j ↦ let (k, pending) = In-pending_users now u users j in (there k, pending)
        ]

  pending_users-In :
      (now : Num) (u : LdapUser) (users : List LdapUser)
      → In u users
      → is_pending py read_int now u.attributes ≡ true
      → In u (pending_users py read_int numeric_id now users)
  unfolding pending_users
  pending_users-In now u [] i h = elim i [ ]
  pending_users-In now u (v ∷ users) (here e) h =
      cons_if-here (is_pending py read_int now v.attributes) v u
        (pending_users py read_int numeric_id now users) e
        (subst (λ (w : LdapUser). is_pending py read_int now w.attributes ≡ true) e h)
  pending_users-In now u (v ∷ users) (there i) h =
      cons_if-there (is_pending py read_int now v.attributes) v u
        (pending_users py read_int numeric_id now users) (pending_users-In now u users i h)

  -- What the pass has found out about a user when it comes to the certificates: the user is
  -- inactive, or the deactivation went through.
  abbrev pub IsReached : Services → LdapUser → Type 0
  IsReached s u =
      is_active py read_int u.attributes ≡ true → s.deactivates (numeric_id u.id) ≡ ok tt

  -- The client of TAK Server reports that every certificate of the user is revoked.
  abbrev pub IsRevoked : Services → LdapUser → Type 0
  IsRevoked s u =
      (revokes : String → Result Bool) × (s.tak ≡ some revokes) × (revokes u.id ≡ ok true)

  mark_if-mark :
      (r : Result Bool) (u : LdapUser) (id : ℕ)
      → In (mark_certs_revoked id) (mark_if py read_int numeric_id r u)
      → (r ≡ ok true) × (numeric_id u.id ≡ id)
  unfolding mark_if
  mark_if-mark (ok true) u id (here e) = (refl, cc)
  mark_if-mark (ok true) u id (there i) = elim i [ ]
  mark_if-mark (ok false) u id i = elim i [ ]
  mark_if-mark (err e) u id i = elim i [ ]

  revoke_with-mark :
      (s : Services) (tak : Option (String → Result Bool)) (u : LdapUser) (id : ℕ)
      → s.tak ≡ tak
      → In (mark_certs_revoked id) (revoke_with py read_int numeric_id tak u)
      → IsRevoked s u × (numeric_id u.id ≡ id)
  unfolding revoke_with
  revoke_with-mark s none u id e i = elim i [ ]
  revoke_with-mark s (some revokes) u id e (here q) = absurd (cc)
  revoke_with-mark s (some revokes) u id e (there i) =
      let (whole, same) = mark_if-mark (revokes u.id) u id i in ((revokes, e, whole), same)

  check_user-mark :
      (s : Services) (u : LdapUser) (id : ℕ)
      → In (mark_certs_revoked id) (check_user py read_int numeric_id s u)
      → IsReached s u × IsRevoked s u × (numeric_id u.id ≡ id)
  unfolding check_user after_deactivation
  check_user-mark s u id i = by_active (is_active py read_int u.attributes) refl i
    where
      by_answer :
          (r : Result (Unit {0}))
          → In (mark_certs_revoked id) (after_deactivation py read_int numeric_id s r u)
          → (r ≡ ok tt) × IsRevoked s u × (numeric_id u.id ≡ id)
      by_answer (ok tt) j =
          let (whole, same) = revoke_with-mark s s.tak u id refl j in (refl, whole, same)
      by_answer (err e) j = elim j [ ]

      by_active :
          (b : Bool)
          → is_active py read_int u.attributes ≡ b
          → In (mark_certs_revoked id) (
              if b
              then deactivate_user (numeric_id u.id)
                ∷ after_deactivation py read_int numeric_id s (s.deactivates (numeric_id u.id)) u
              else revoke_with py read_int numeric_id s.tak u)
          → IsReached s u × IsRevoked s u × (numeric_id u.id ≡ id)
      by_active true e (here q) = absurd (cc)
      by_active true e (there j) =
          let (answer, whole, same) = by_answer (s.deactivates (numeric_id u.id)) j in
          ((λ active. answer), whole, same)
      by_active false e j =
          let (whole, same) = revoke_with-mark s s.tak u id refl j in
          ((λ active. absurd (cc)), whole, same)

  revoke_with-In :
      (s : Services) (u : LdapUser)
      → IsRevoked s u
      → In (mark_certs_revoked (numeric_id u.id)) (revoke_with py read_int numeric_id s.tak u)
  unfolding revoke_with mark_if
  revoke_with-In s u (revokes, client, whole) = rw (client, whole) (there (here refl))

  check_user-In :
      (s : Services) (u : LdapUser)
      → IsReached s u
      → IsRevoked s u
      → In (mark_certs_revoked (numeric_id u.id)) (check_user py read_int numeric_id s u)
  unfolding check_user after_deactivation
  check_user-In s u reached whole = elim (Bool-cases (is_active py read_int u.attributes)) [
    | inl active ↦ rw (active, reached active) (there (revoke_with-In s u whole))
    | inr inactive ↦ rw inactive (revoke_with-In s u whole)
  ]

  -- A pass marks an id as revoked exactly where it is the id of a listed user who is pending, whose deactivation
  -- went through if the user was active, and whose certificates TAK Server's client reports as all
  -- revoked. So no failure with another user keeps a user from being marked, and without a client of
  -- TAK Server nobody is marked.
  pub check_user_expiry_marks :
      (now : Num) (s : Services) (users : List LdapUser) (id : ℕ)
      → In (mark_certs_revoked id) (check_user_expiry py read_int numeric_id now s (ok users)) ↔ (
          (u : LdapUser) × In u users
          × (is_pending py read_int now u.attributes ≡ true)
          × IsReached s u
          × IsRevoked s u
          × (numeric_id u.id ≡ id))
  unfolding check_user_expiry
  check_user_expiry_marks now s users id = (
    λ i.
        let (u, pending, made) =
          In-check_users s (mark_certs_revoked id) (pending_users py read_int numeric_id now users)
            i in
        let (listed, due) = In-pending_users now u users pending in
        let (reached, whole, same) = check_user-mark s u id made in
        (u, listed, due, reached, whole, same),
    λ (u, listed, due, reached, whole, same).
        check_users-In s (mark_certs_revoked id) u (pending_users py read_int numeric_id now users)
          (pending_users-In now u users listed due)
          (subst (λ (n : ℕ). In (mark_certs_revoked n) (check_user py read_int numeric_id s u)) same
            (check_user-In s u reached whole)),
  )
