-- ===== src/Accounts/Tests.antt =====
-- The theorems about service accounts at concrete requests.
use fast_tak.Base.{◌⊎◌, refl, true, none, some, [], ◌∷◌, nat_eq, In, here}
use fast_tak.Base.Result.{ok}
use fast_tak.Base.Text.{codes, codes_eq, strip_prefix}
use fast_tak.Certs.{Docker}
use fast_tak.Accounts.{
  data_mode, Account, Services, CreateRequest, post_service_account, update_service_account,
  set_user_groups, with_account, update_checked, has_type, with_groups, missing_of, unless_missing,
  apply_update, set_groups_if, then_do, CertFiles,
}
use fast_tak.Accounts.Creation.{IsRefused, IsSettled, post_service_account_settles}
use fast_tak.Accounts.Changes.{IsFound, AreAllowed, update_service_account_checks}

abbrev bot : Account
bot = record { username = codes "svc_bot"; fastak_user_type = some (codes "svc_data") }

abbrev docker : Docker
docker = record {
  finds = λ p. ok true;
  exec_run = λ c. ok (1, codes "no");
  puts_archive = λ n. ok tt;
  message = λ e. codes "error";
}

abbrev services : Services
services = record {
  get_user = λ id. ok (some bot);
  group_names = ok (codes "ops" ∷ codes "fire" ∷ []);
  creates = λ name. ok 7;
  updates = λ id. ok tt;
  sets_groups = λ id. ok tt;
  deactivates = λ id. ok tt;
  marks = λ id. ok tt;
  tak = none;
  docker = docker;
}

abbrev request : CreateRequest
request = record {
  name = codes "bot";
  display_name = codes "Bot";
  mode = data_mode;
  groups = some (codes "ops" ∷ []);
  validity_days = none;
}

post_service_account_settles_example :
    IsRefused (post_service_account services request)
    ⊎ IsSettled request 7 (post_service_account services request)
post_service_account_settles_example =
    post_service_account_settles services request 7 refl (λ p. tt)

update_In :
    In
      (set_user_groups 7 (codes "fire" ∷ []))
      (update_service_account services 7 none (some (codes "fire" ∷ []))).0
unfolding update_service_account with_account update_checked has_type with_groups missing_of
    unless_missing apply_update set_groups_if then_do codes_eq nat_eq strip_prefix
update_In = here refl

update_service_account_checks_example :
    (a : Account) × IsFound services 7 a × AreAllowed services a (some (codes "fire" ∷ []))
update_service_account_checks_example =
    update_service_account_checks services 7 none (some (codes "fire" ∷ []))
      (set_user_groups 7 (codes "fire" ∷ [])) update_In

abbrev files : CertFiles
files = record {
  has_p12 = λ n. true;
  has_pem = λ n. true;
  serial = λ n. some (codes "0a");
  revoked_serials = codes "0b" ∷ [];
}
