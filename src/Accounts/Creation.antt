-- ===== src/Accounts/Creation.antt =====
-- What is left of a service account whose creation fails.
use fast_tak.Base.{
  ℕ, String, ◌≡◌, ◌⊎◌, inl, inr, refl, Option, none, some, List, [], ◌∷◌, ◌++◌, In, here, there,
  Bool-cases, nat_eq,
}
use fast_tak.Base.Result.{Error, Result, ok, err, http_exception}
use fast_tak.Base.Text.{codes_eq}
use fast_tak.Backup.Names.{Name}
use fast_tak.Certs.Subject.{Chars}
use fast_tak.Certs.{
  Command, Purpose, generating, exporting, registering, Docker, CertResult, succeeded, failed,
  Attempt,
}
use fast_tak.Certs.Returning.{
  Returns, generate_client_cert-Returns, write_nodered_pems-Returns, register_admin_cert-Returns,
}
use fast_tak.Accounts.{
  ServiceAccountMode, data_mode, admin_mode, Call, create_user, deactivate_user, Services, Reply,
  created, Outcome, then_do, execs, with_tool, CreateRequest, accepts, svc_name, days_of,
  missing_of, unless_missing, with_groups, roll_back, reply_created, after_registration, provision,
  after_cert, make_account, check_groups, create_service_account, post_service_account,
}

abbrev pub Is500 : Result Reply → Type 0
Is500 r = (detail : String) × (r ≡ err (http_exception 500 detail))

-- The account is there and no deactivation of its user is attempted, or one is attempted and the error told.
abbrev pub IsSettled : CreateRequest → ℕ → Outcome → Type 0
IsSettled body id (calls, reply) =
    ((reply ≡ ok (created id (svc_name body.name) body.mode (days_of body.mode body.validity_days)))
      × ((i : In (deactivate_user id) calls) → ⊥))
    ⊎ (Is500 reply × In (deactivate_user id) calls)

-- The commands of a tool leave the calls about the user as they are.
not-In-execs :
    (id : ℕ) (commands : List Command) (calls : List Call)
    → ((i : In (deactivate_user id) calls) → ⊥)
    → (i : In (deactivate_user id) (execs commands ++ calls)) → ⊥
unfolding execs
not-In-execs id [] calls h i = h i
not-In-execs id (c ∷ commands) calls h (here e) = cc
not-In-execs id (c ∷ commands) calls h (there i) = not-In-execs id commands calls h i

In-execs :
    (c : Call) (commands : List Command) (calls : List Call)
    → In c calls
    → In c (execs commands ++ calls)
unfolding execs
In-execs c [] calls i = i
In-execs c (k ∷ commands) calls i = there (In-execs c commands calls i)

with_tool-IsSettled :
    (body : CreateRequest) (id : ℕ) (a : Attempt) (rest : CertResult → Outcome)
    → Returns a.1
    → ((r : CertResult) → IsSettled body id (rest r))
    → IsSettled body id (with_tool a rest)
unfolding with_tool
with_tool-IsSettled body id (commands, err e) rest returns h = elim returns [ ]
with_tool-IsSettled body id (commands, ok r) rest returns h = elim (h r) [
  | inl (made, kept) ↦ inl (made, not-In-execs id commands (rest r).0 kept)
  | inr (told, undone) ↦ inr (told, In-execs (deactivate_user id) commands (rest r).0 undone)
]

roll_back-IsSettled :
    (body : CreateRequest) (id : ℕ) (detail : String) → IsSettled body id (roll_back id detail)
unfolding roll_back
roll_back-IsSettled body id detail = inr ((detail, refl), here refl)

reply_created-IsSettled :
    (body : CreateRequest) (id : ℕ) → IsSettled body id (reply_created body id)
unfolding reply_created
reply_created-IsSettled body id = inl (refl, (λ i. elim i [ ]))

after_registration-IsSettled :
    (body : CreateRequest) (id : ℕ) (r : CertResult)
    → IsSettled body id (after_registration body id r)
unfolding after_registration
after_registration-IsSettled body id succeeded = reply_created-IsSettled body id
after_registration-IsSettled body id (failed message) = roll_back-IsSettled body id _

-- The steps after the user was created, by the result of the certificate.
after_cert-IsSettled :
    (d : Docker) (body : CreateRequest) (id : ℕ) (r : CertResult)
    → ((p : Purpose) → Returns (d.finds p))
    → IsSettled body id (after_cert d body id r)
unfolding after_cert provision
after_cert-IsSettled d body id (failed message) found = roll_back-IsSettled body id _
after_cert-IsSettled d body id succeeded found = by_mode body.mode
  where
    by_mode : (m : ServiceAccountMode) → IsSettled body id (provision d body m id)
    by_mode data_mode =
        with_tool-IsSettled body id _ _
          (write_nodered_pems-Returns d (svc_name body.name) (found exporting))
          (λ r. reply_created-IsSettled body id)
    by_mode admin_mode =
        with_tool-IsSettled body id _ _
          (register_admin_cert-Returns d (svc_name body.name) (found registering))
          (after_registration-IsSettled body id)

-- The request ends before any call, with an error.
abbrev pub IsRefused : Outcome → Type 0
IsRefused (calls, reply) = (calls ≡ []) × (e : Error) × (reply ≡ err e)

-- A guard lets the rest through as it is, or refuses.
abbrev pub Guards : Outcome → Outcome → Type 0
Guards o rest = IsRefused o ⊎ (o ≡ rest)

with_groups-Guards :
    (existing : Result (List Chars)) (groups : List Chars) (rest : Outcome)
    → Guards (with_groups existing groups rest) rest
unfolding with_groups
with_groups-Guards (err e) groups rest = inl (refl, e, refl)
with_groups-Guards (ok existing) groups rest = by_missing (missing_of groups existing)
  where
    by_missing : (missing : List Chars) → Guards (unless_missing missing rest) rest
    by_missing [] = unfold unless_missing in inr refl
    by_missing (g ∷ missing) = unfold unless_missing in inl (refl, _, refl)

check_groups-Guards :
    (s : Services) (mode : ServiceAccountMode) (groups : Option (List Chars)) (rest : Outcome)
    → Guards (check_groups s mode groups rest) rest
unfolding check_groups
check_groups-Guards s data_mode none rest = inr refl
check_groups-Guards s data_mode (some []) rest = inr refl
check_groups-Guards s data_mode (some (g ∷ groups)) rest =
    with_groups-Guards s.group_names (g ∷ groups) rest
check_groups-Guards s admin_mode none rest = inr refl
check_groups-Guards s admin_mode (some groups) rest = inr refl

pub post_service_account-Guards :
    (s : Services) (body : CreateRequest)
    → Guards (post_service_account s body) (make_account s body)
unfolding post_service_account create_service_account
post_service_account-Guards s body = elim (Bool-cases (accepts body)) [
  | inr refused ↦ inl (rw refused (refl, _, refl))
  | inl accepted ↦ rw accepted (check_groups-Guards s body.mode body.groups (make_account s body))
]

make_account-IsSettled :
    (s : Services) (body : CreateRequest) (id : ℕ)
    → s.creates (svc_name body.name) ≡ ok id
    → ((p : Purpose) → Returns (s.docker.finds p))
    → IsSettled body id (make_account s body)
unfolding make_account then_do
make_account-IsSettled s body id answered found = rw answered (
    cons_settled (
      with_tool-IsSettled body id _ (after_cert s.docker body id)
        (generate_client_cert-Returns s.docker (svc_name body.name)
          (days_of body.mode body.validity_days) (found generating))
        (λ r. after_cert-IsSettled s.docker body id r found)))
  where
    cons_settled :
        {name : Name} {display type_ : Chars} {groups : Option (List Chars)} {o : Outcome}
        → IsSettled body id o
        → IsSettled body id (create_user name display groups type_ ∷ o.0, o.1)
    cons_settled (inl (made, kept)) = inl (made, (λ i. elim i [ here e ↦ cc | there j ↦ kept j ]))
    cons_settled (inr (told, undone)) = inr (told, there undone)

-- A request for a service account is refused before any user is created, or it ends with the account
-- made and no attempt to deactivate its user, or with an error 500 after the deactivation of the new user was
-- attempted. Whether the attempt succeeds is not claimed: a failure of it is logged and swallowed. This is for
-- answers where the identity client creates the user and the search for a container does not raise; the
-- certificate and its registration may fail in any way.
pub post_service_account_settles :
    (s : Services) (body : CreateRequest) (id : ℕ)
    → s.creates (svc_name body.name) ≡ ok id
    → ((p : Purpose) → Returns (s.docker.finds p))
    → IsRefused (post_service_account s body) ⊎ IsSettled body id (post_service_account s body)
post_service_account_settles s body id answered found = elim (post_service_account-Guards s body) [
  | inl refused ↦ inl refused
  | inr e ↦ inr (rw e (make_account-IsSettled s body id answered found))
]
