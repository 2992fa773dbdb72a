-- ===== src/Certs/Tests.antt =====
-- The theorems about certificate tools at a concrete container.
use fast_tak.Base.{◌≡◌, ◌↔◌, refl, true, none, some, [], ◌∷◌, nat_eq, In, here}
use fast_tak.Base.Result.{ok}
use fast_tak.Base.Text.{codes, codes_eq, strip, lstrip, rstrip, is_space, all_space, chomp}
use fast_tak.Backup.Names.{Name}
use fast_tak.Certs.Subject.{parse_ca_subject, default_subject}
use fast_tak.Certs.Printed.{IsValue, printed_subject, parse_ca_subject-printed_subject}
use fast_tak.Certs.{
  Command, Docker, succeeded, validate_name, generate_client_cert, revoke_file, revoke_cert_by_name,
  request_cert, sign_cert, when_valid, with_container, revoke_via_crl, exec_then, read_subject,
}
use fast_tak.Certs.Laws.{IsGenerated, generate_client_cert_succeeds}
use fast_tak.Certs.Names.{revoke, run_tool, run_tool_names}

-- Every command ends with 0 and prints nothing.
abbrev sound : Docker
sound = record {
  finds = λ p. ok true;
  exec_run = λ c. ok (0, []);
  puts_archive = λ n. ok tt;
  message = λ e. codes "error";
}

abbrev tablet : Name
tablet = codes "ann-tablet"

generate_client_cert_succeeds_example :
    (generate_client_cert sound tablet 365 (some (codes "ann")) ≡ (
      read_subject
          ∷ request_cert tablet (codes "ann") default_subject
          ∷ sign_cert tablet 365
          ∷ Command.bundle_p12 tablet
          ∷ [],
      ok succeeded,
    ))
    ↔ IsGenerated sound tablet 365 (some (codes "ann")) (
        read_subject
        ∷ request_cert tablet (codes "ann") default_subject
        ∷ sign_cert tablet 365
        ∷ Command.bundle_p12 tablet
        ∷ [])
generate_client_cert_succeeds_example =
    generate_client_cert_succeeds sound tablet 365 (some (codes "ann")) (
      read_subject
      ∷ request_cert tablet (codes "ann") default_subject
      ∷ sign_cert tablet 365
      ∷ Command.bundle_p12 tablet
      ∷ [])

tablet_revoked : (run_tool sound (revoke tablet)).0 ≡ revoke_file tablet ∷ []
unfolding revoke_cert_by_name when_valid validate_name with_container revoke_via_crl exec_then
    nat_eq codes_eq chomp
tablet_revoked = refl

revoke_In : In (revoke_file tablet) (run_tool sound (revoke tablet)).0
unfolding revoke_cert_by_name when_valid validate_name with_container revoke_via_crl exec_then
    nat_eq codes_eq chomp
revoke_In = here refl

run_tool_names_example : validate_name tablet ≡ none
run_tool_names_example =
    run_tool_names sound (revoke tablet) (revoke_file tablet) tablet revoke_In (here refl)

country-IsValue : IsValue (codes "US")
unfolding nat_eq strip lstrip rstrip is_space all_space
country-IsValue = record { ne_nil = λ e. cc; trimmed = refl; plain = refl }

state-IsValue : IsValue (codes "New York")
unfolding nat_eq strip lstrip rstrip is_space all_space
state-IsValue = record { ne_nil = λ e. cc; trimmed = refl; plain = refl }

parse_ca_subject-printed_subject_example :
    parse_ca_subject (
      printed_subject true
        (codes "US")
        (codes "New York")
        (codes "US")
        (codes "New York")
        (codes "US"))
    ≡ record { state = codes "New York"; city = codes "US"; org_unit = codes "New York" }
parse_ca_subject-printed_subject_example =
    parse_ca_subject-printed_subject true (codes "US") (codes "New York") (codes "US")
      (codes "New York") (codes "US") country-IsValue state-IsValue country-IsValue state-IsValue
      country-IsValue
