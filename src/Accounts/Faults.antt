-- ===== src/Accounts/Faults.antt =====
-- A request for a service account that the code lets through and then cannot serve.
use fast_tak.Base.{
  ℕ, ◌≡◌, ◌⊎◌, ◌<◌, inl, inr, refl, false, some, [], ◌∷◌, ◌++◌, arith, length, is_some, ◌==◌,
  nat_eq, Bool-cases, ◌||◌, not,
}
use fast_tak.Base.Result.{ok, err, http_exception}
use fast_tak.Base.Text.{codes, codes_eq, strip_prefix, chomp, all_of}
use fast_tak.Backup.Names.{Name, is_name_char}
use fast_tak.Certs.Subject.{Chars}
use fast_tak.Certs.{validate_name, when_valid, generate_client_cert}
use fast_tak.Accounts.{
  Call, create_user, deactivate_user, Services, then_do, execs, with_tool, CreateRequest, svc_name,
  roll_back, after_cert, groups_for, type_for, make_account, post_service_account,
}
use fast_tak.Accounts.Creation.{IsRefused, post_service_account-Guards}

-- The call that creates the user of the request.
abbrev pub creation : CreateRequest → Call
creation body =
    create_user (svc_name body.name) body.display_name (groups_for body.mode body.groups)
      (type_for body.mode)

validate_name-long :
    (name : Name) → 64 < length name → (message : Chars) × (validate_name name ≡ some message)
unfolding validate_name
validate_name-long name long =
    elim (Bool-cases (chomp name == [] || not (all_of is_name_char (chomp name)))) [
      | inl wrong ↦ (
        codes "Name must contain only letters, numbers, dots, hyphens, underscores",
        rw wrong refl,
      )
      | inr right ↦ (codes "Name must be 64 characters or fewer", ground (arith, right, long))
    ]

svc_name-too_long :
    (name : Name)
    → is_some (strip_prefix (codes "svc_") name) ≡ false
    → 60 < length name
    → (message : Chars) × (validate_name (svc_name name) ≡ some message)
unfolding svc_name
svc_name-too_long name bare long = rw bare (validate_name-long (codes "svc_" ++ name) (omega arith))

make_account-too_long :
    (s : Services) (body : CreateRequest) (id : ℕ)
    → s.creates (svc_name body.name) ≡ ok id
    → is_some (strip_prefix (codes "svc_") body.name) ≡ false
    → 60 < length body.name
    → make_account s body ≡ (
      creation body ∷ deactivate_user id ∷ [],
      err (http_exception 500 "Certificate generation failed"),
    )
unfolding make_account then_do with_tool generate_client_cert when_valid execs after_cert roll_back
make_account-too_long s body id answered bare long =
    let (message, wrong) = svc_name-too_long body.name bare long in rw (answered, wrong) refl

-- A name without the prefix may have up to 64 characters, but one of more than 60 is too long with
-- it: the request is refused before any call, or the user is created, deactivated, and the answer is 500.
pub post_service_account_too_long :
    (s : Services) (body : CreateRequest) (id : ℕ)
    → s.creates (svc_name body.name) ≡ ok id
    → is_some (strip_prefix (codes "svc_") body.name) ≡ false
    → 60 < length body.name
    → IsRefused (post_service_account s body)
      ⊎ (post_service_account s body ≡ (
        creation body ∷ deactivate_user id ∷ [],
        err (http_exception 500 "Certificate generation failed"),
      ))
post_service_account_too_long s body id answered bare long =
    elim (post_service_account-Guards s body) [
      | inl refused ↦ inl refused
      | inr through ↦ inr (rw through (make_account-too_long s body id answered bare long))
    ]
