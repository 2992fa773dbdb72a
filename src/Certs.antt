-- ===== src/Certs.antt =====
-- The certificate tools (monitor/app/api/service_accounts/cert_gen.py): the commands that each of them
-- runs in the container of TAK Server, in order, and its result, for every way in which Docker and
-- the commands may end. Names, outputs and messages are lists of code points.
pub mod Subject
pub mod Laws
pub mod Names
pub mod Returning
pub mod Printed
mod Tests
use fast_tak.Base.{
  ℕ, String, ◌≡◌, Bool, true, false, not, ◌&&◌, ◌||◌, Option, none, some, List, [], ◌∷◌, ◌++◌, ◌==◌,
  nat_eq, length, ltb, take, if◌then◌else◌,
}
use fast_tak.Base.Result.{Error, Result, ok, err}
use fast_tak.Base.Text.{codes, codes_eq, all_of, chomp, strip, after}
use fast_tak.Backup.Names.{Name, is_name_char}
use fast_tak.Certs.Subject.{Chars, CaSubject, default_subject, starts, parse_ca_subject}

-- What the tools run in the container, with the variables of its environment.
pub data Command : Type 0 where
  read_subject : Command
  request_cert : Name → Name → CaSubject → Command
  sign_cert : Name → ℕ → Command
  bundle_p12 : Name → Command
  export_pems remove_pems revoke_file remove_file certmod : Name → Command

-- What a tool is called for: each looks for the container anew.
pub data Purpose : Type 0 where
  generating exporting removing revoking registering : Purpose

-- Docker and the commands: whether the container is found, the exit code and the output of a command,
-- and `str` of an exception.
pub record Docker : Type 0 where
  pub finds : Purpose → Result Bool
  pub exec_run : Command → Result (ℕ × Chars)
  pub puts_archive : Name → Result (Unit {0})
  pub message : Error → Chars

-- The dictionary that a tool returns: `success`, or `error`.
pub data CertResult : Type 0 where
  succeeded : CertResult
  failed : Chars → CertResult

-- The commands that are run, in order, and the result, or an exception that nobody catches.
abbrev pub Attempt : Type 0
Attempt = List Command × Result CertResult

abbrev pub fail : Chars → Attempt
fail message = ([], ok (failed message))

-- `_validate_name`: what is wrong with the name. The `$` of the pattern overlooks a newline at the end.
unfoldable pub validate_name : Name → Option Chars
validate_name name =
    if chomp name == [] || not (all_of is_name_char (chomp name))
    then some (codes "Name must contain only letters, numbers, dots, hyphens, underscores")
    else if ltb 64 (length name)
    then some (codes "Name must be 64 characters or fewer")
    else none

-- `if err := _validate_name(name): return ...`
unfoldable pub when_valid : Chars → Option Chars → Attempt → Attempt
when_valid prefix (some wrong) rest = fail (prefix ++ wrong)
when_valid prefix none rest = rest

-- `_get_tak_container`, which is called outside the `try`.
unfoldable pub with_container : Result Bool → Attempt → Attempt
with_container (ok true) rest = rest
with_container (ok false) rest = fail (codes "tak-server container not found")
with_container (err e) rest = ([], err e)

-- A command whose failure ends the tool, and what follows it. An exception is caught.
unfoldable pub exec_then : Docker → Chars → ℕ → Command → Result (ℕ × Chars) → Attempt → Attempt
exec_then d prefix width c (err e) rest = (c ∷ [], ok (failed (take 300 (d.message e))))
exec_then d prefix width c (ok (code, output)) (commands, reply) =
    if code == 0 then (c ∷ commands, reply) else (c ∷ [], ok (failed (prefix ++ take width output)))

unfoldable pub must_run : Docker → String → Command → Attempt → Attempt
must_run d prefix c rest = exec_then d (codes prefix) 300 c (d.exec_run c) rest

abbrev pub done : Attempt
done = ([], ok succeeded)

-- `_read_ca_subject`, and what follows with the subject.
unfoldable pub with_subject : Docker → Result (ℕ × Chars) → (CaSubject → Attempt) → Attempt
with_subject d (err e) rest = (read_subject ∷ [], ok (failed (take 300 (d.message e))))
with_subject d (ok (code, output)) rest =
    let (commands, reply) = rest (if code == 0 then parse_ca_subject output else default_subject) in
    (read_subject ∷ commands, reply)

-- `cn_override or name`
unfoldable pub common_name : Name → Option Name → Name
common_name name none = name
common_name name (some cn) = if cn == [] then name else cn

-- `cn_override and (err := _validate_name(cn_override))`
unfoldable pub validate_override : Option Name → Option Chars
validate_override none = none
validate_override (some cn) = if cn == [] then none else validate_name cn

unfoldable pub make_cert : Docker → Name → ℕ → Name → CaSubject → Attempt
make_cert d name days cn subject =
    must_run d "CSR generation failed: " (request_cert name cn subject) (
      must_run d "Signing failed: " (sign_cert name days)
        (must_run d "P12 creation failed: " (bundle_p12 name) done))

unfoldable pub generate_client_cert : Docker → Name → ℕ → Option Name → Attempt
generate_client_cert d name days cn_override = when_valid [] (validate_name name) (
    when_valid (codes "CN override: ") (validate_override cn_override) (
      with_container (d.finds generating) (
        with_subject d (d.exec_run read_subject)
          (make_cert d name days (common_name name cn_override)))))

unfoldable pub write_nodered_pems : Docker → Name → Attempt
write_nodered_pems d name =
    when_valid [] (validate_name name)
      (with_container (d.finds exporting) (must_run d "" (export_pems name) done))

-- The exit code of `rm -f` is not looked at.
unfoldable pub after_removal : Docker → Command → Result (ℕ × Chars) → Attempt
after_removal d c (ok _) = (c ∷ [], ok succeeded)
after_removal d c (err e) = (c ∷ [], ok (failed (take 300 (d.message e))))

unfoldable pub remove_nodered_pems : Docker → Name → Attempt
remove_nodered_pems d name = when_valid [] (validate_name name) (
    with_container (d.finds removing)
      (after_removal d (remove_pems name) (d.exec_run (remove_pems name))))

-- `_revoke_via_crl` in a container that was found.
unfoldable pub revoke_via_crl : Docker → Name → Attempt
revoke_via_crl d name = exec_then d [] 500 (revoke_file name) (d.exec_run (revoke_file name)) done

unfoldable pub revoke_cert_by_name : Docker → Name → Attempt
revoke_cert_by_name d name =
    when_valid [] (validate_name name) (with_container (d.finds revoking) (revoke_via_crl d name))

-- The removal of the temporary file, with the result that stands unless it raises.
unfoldable pub clean_up : Docker → Command → Result (ℕ × Chars) → Attempt → Attempt
clean_up d c (ok _) (commands, reply) = (commands ++ c ∷ [], reply)
clean_up d c (err e) (commands, reply) = (commands ++ c ∷ [], ok (failed (take 300 (d.message e))))

unfoldable pub revoke_uploaded : Docker → Name → Result (Unit {0}) → Attempt
revoke_uploaded d tmp (err e) = fail (take 300 (d.message e))
revoke_uploaded d tmp (ok _) =
    clean_up d (remove_file tmp) (d.exec_run (remove_file tmp)) (revoke_via_crl d tmp)

-- With the random name of the temporary file.
unfoldable pub revoke_cert_by_pem : Docker → Name → Attempt
revoke_cert_by_pem d tmp =
    with_container (d.finds revoking) (revoke_uploaded d tmp (d.puts_archive tmp))

-- `success` is whether the exit code is 0, and the output stands for the error.
unfoldable pub register_admin_cert : Docker → Name → Attempt
register_admin_cert d name =
    with_container (d.finds registering)
      (exec_then d [] 500 (certmod name) (d.exec_run (certmod name)) done)

-- The serial of one line of the printed revocation list.
unfoldable pub serial_of_line : (Chars → Chars) → Chars → Option Chars
serial_of_line lower line =
    if starts (codes "Serial Number:") (strip line)
    then some (lower (strip (after b':' (strip line))))
    else none

unfoldable pub add_serial : Option Chars → List Chars → List Chars
add_serial none serials = serials
add_serial (some serial) serials = serial ∷ serials

unfoldable pub serials_of : (Chars → Chars) → List Chars → List Chars
serials_of lower [] = []
serials_of lower (line ∷ lines) = add_serial (serial_of_line lower line) (serials_of lower lines)

-- `get_revoked_serials`, with whether the list is there and the lines that `openssl crl` prints.
unfoldable pub get_revoked_serials : (Chars → Chars) → Bool → Result (List Chars) → List Chars
get_revoked_serials lower false lines = []
get_revoked_serials lower true (ok lines) = serials_of lower lines
get_revoked_serials lower true (err e) = []
