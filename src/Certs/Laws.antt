-- ===== src/Certs/Laws.antt =====
-- When a certificate is generated, and what the certificate tools run.
use fast_tak.Base.{
  ℕ, zero, String, ◌≡◌, ◌↔◌, refl, ap, ◌∙◌, Bool, true, false, Option, none, some, List, [], ◌∷◌,
  arith, ◌==◌, nat_eq, All, if◌then◌else◌,
}
use fast_tak.Base.Result.{Result, ok, err}
use fast_tak.Base.Text.{codes, codes_eq}
use fast_tak.Backup.Names.{Name}
use fast_tak.Certs.Subject.{Chars, CaSubject, default_subject, parse_ca_subject}
use fast_tak.Certs.{
  Command, read_subject, request_cert, sign_cert, bundle_p12, Docker, succeeded, Attempt,
  validate_name, when_valid, with_container, exec_then, must_run, with_subject, common_name,
  validate_override, make_cert, generate_client_cert, generating, done,
}

-- The command ends with code 0.
abbrev pub Ends : Docker → Command → Type 0
Ends d c = (output : Chars) × (d.exec_run c ≡ ok (zero, output))

-- The subject that is used, where its command does not raise.
abbrev pub Reads : Result (ℕ × Chars) → CaSubject → Type 0
Reads (ok (code, output)) s = (if code == 0 then parse_ca_subject output else default_subject) ≡ s
Reads (err e) s = ⊥

-- The commands after the subject, in order.
abbrev pub cert_commands : Name → Name → ℕ → CaSubject → List Command
cert_commands name cn days s = request_cert name cn s ∷ sign_cert name days ∷ bundle_p12 name ∷ []

when_valid-eq :
    (prefix : Chars) (wrong : Option Chars) (rest : Attempt) {commands : List Command}
    → (when_valid prefix wrong rest ≡ (commands, ok succeeded))
      ↔ ((wrong ≡ none) × (rest ≡ (commands, ok succeeded)))
unfolding when_valid
when_valid-eq prefix none rest = ((λ h. (refl, h)), (λ h. h.1))
when_valid-eq prefix (some w) rest = ((λ h. ground arith), (λ h. ground arith))

with_container-eq :
    (found : Result Bool) (rest : Attempt) {commands : List Command}
    → (with_container found rest ≡ (commands, ok succeeded))
      ↔ ((found ≡ ok true) × (rest ≡ (commands, ok succeeded)))
unfolding with_container
with_container-eq (ok true) rest = ((λ h. (refl, h)), (λ h. h.1))
with_container-eq (ok false) rest = ((λ h. ground arith), (λ h. ground arith))
with_container-eq (err e) rest = ((λ h. ground arith), (λ h. ground arith))

-- A step that has to end with 0, and what follows, both succeed or the whole does not.
exec_then-succeeded :
    (d : Docker) (prefix : Chars) (width : ℕ) (c : Command) (r : Result (ℕ × Chars))
    (rest : Attempt) {commands : List Command}
    → exec_then d prefix width c r rest ≡ (commands, ok succeeded)
    → ((output : Chars) × (r ≡ ok (zero, output)))
      × ((commands ≡ c ∷ rest.0) × (rest.1 ≡ ok succeeded))
unfolding exec_then
exec_then-succeeded d prefix width c (err e) rest h = ground arith
exec_then-succeeded d prefix width c (ok (code, output)) (cs, reply) h =
    ((output, ground arith), (ground arith, ground arith))

succeeded-exec_then :
    (d : Docker) (prefix : Chars) (width : ℕ) (c : Command) (r : Result (ℕ × Chars))
    (rest : Attempt)
    → ((output : Chars) × (r ≡ ok (zero, output)))
    → exec_then d prefix width c r rest ≡ (c ∷ rest.0, rest.1)
unfolding exec_then
succeeded-exec_then d prefix width c (err e) rest h = ground (arith, h.1)
succeeded-exec_then d prefix width c (ok (code, output)) (cs, reply) h = ground (arith, h.1)

must_run-succeeded :
    (d : Docker) (prefix : String) (c : Command) (rest : Attempt) {commands : List Command}
    → must_run d prefix c rest ≡ (commands, ok succeeded)
    → Ends d c × ((commands ≡ c ∷ rest.0) × (rest.1 ≡ ok succeeded))
unfolding must_run
must_run-succeeded d prefix c rest h =
    exec_then-succeeded d (codes prefix) 300 c (d.exec_run c) rest h

succeeded-must_run :
    (d : Docker) (prefix : String) (c : Command) (rest : Attempt)
    → Ends d c
    → must_run d prefix c rest ≡ (c ∷ rest.0, rest.1)
unfolding must_run
succeeded-must_run d prefix c rest h =
    succeeded-exec_then d (codes prefix) 300 c (d.exec_run c) rest h

make_cert-eq :
    (d : Docker) (name : Name) (days : ℕ) (cn : Name) (s : CaSubject) {commands : List Command}
    → (make_cert d name days cn s ≡ (commands, ok succeeded))
      ↔ ((commands ≡ cert_commands name cn days s) × All (Ends d) (cert_commands name cn days s))
unfolding make_cert
make_cert-eq d name days cn s {commands} = (forward, backward)
  where
    bundled : Attempt
    bundled = must_run d "P12 creation failed: " (bundle_p12 name) done

    signed : Attempt
    signed = must_run d "Signing failed: " (sign_cert name days) bundled

    forward :
        make_cert d name days cn s ≡ (commands, ok succeeded)
        → (commands ≡ cert_commands name cn days s) × All (Ends d) (cert_commands name cn days s)
    forward h =
        let (asked, (all, one)) =
          must_run-succeeded d "CSR generation failed: " (request_cert name cn s) signed h in
        let (sign_ends, (two, three)) =
          must_run-succeeded d "Signing failed: " (sign_cert name days) bundled
            {commands = signed.0} (ap (λ r. (signed.0, r)) one) in
        let (bundle_ends, (four, five)) =
          must_run-succeeded d "P12 creation failed: " (bundle_p12 name) done {commands = bundled.0}
            (ap (λ r. (bundled.0, r)) three) in
        (
          all
              ∙ ap (λ cs. request_cert name cn s ∷ cs)
                  (two ∙ ap (λ cs. sign_cert name days ∷ cs) four),
          (asked, (sign_ends, (bundle_ends, tt))),
        )

    backward :
        (commands ≡ cert_commands name cn days s) × All (Ends d) (cert_commands name cn days s)
        → make_cert d name days cn s ≡ (commands, ok succeeded)
    backward (e, (asked, (sign_ends, (bundle_ends, _)))) =
        rw
          (
            e,
            succeeded-must_run d "CSR generation failed: " (request_cert name cn s) signed asked,
            succeeded-must_run d "Signing failed: " (sign_cert name days) bundled sign_ends,
            succeeded-must_run d "P12 creation failed: " (bundle_p12 name) done bundle_ends,
          )
          refl

with_subject-eq :
    (d : Docker) (r : Result (ℕ × Chars)) (rest : CaSubject → Attempt) {commands : List Command}
    → with_subject d r rest ≡ (commands, ok succeeded)
    → (s : CaSubject) × Reads r s
      × (commands ≡ read_subject ∷ (rest s).0)
      × ((rest s).1 ≡ ok succeeded)
unfolding with_subject
with_subject-eq d (err e) rest h = ground arith
with_subject-eq d (ok (code, output)) rest h = (
  if code == 0 then parse_ca_subject output else default_subject,
  refl,
  ground arith,
  ground arith,
)

eq-with_subject :
    (d : Docker) (r : Result (ℕ × Chars)) (rest : CaSubject → Attempt) (s : CaSubject)
    → Reads r s
    → with_subject d r rest ≡ (read_subject ∷ (rest s).0, (rest s).1)
unfolding with_subject
eq-with_subject d (err e) rest s h = elim h [ ]
eq-with_subject d (ok (code, output)) rest s h = rw (← h) refl

-- What a certificate takes, and the commands that make it.
abbrev pub IsGenerated : Docker → Name → ℕ → Option Name → List Command → Type 0
IsGenerated d name days cn_override commands =
    (validate_name name ≡ none)
    × (validate_override cn_override ≡ none)
    × (d.finds generating ≡ ok true)
    × (s : CaSubject) × Reads (d.exec_run read_subject) s
    × (commands ≡ read_subject ∷ cert_commands name (common_name name cn_override) days s)
    × All (Ends d) (cert_commands name (common_name name cn_override) days s)

-- `generate_client_cert` succeeds exactly when both names are valid, the container is found, the
-- command that reads the authority's subject does not raise, and the request, the signature and the
-- bundle, for the subject that was read or else the default one, each end with code 0. It has then
-- run these four commands in this order and no other, with the override as common name where there is one.
pub generate_client_cert_succeeds :
    (d : Docker) (name : Name) (days : ℕ) (cn_override : Option Name) (commands : List Command)
    → (generate_client_cert d name days cn_override ≡ (commands, ok succeeded))
      ↔ IsGenerated d name days cn_override commands
unfolding generate_client_cert
generate_client_cert_succeeds d name days cn_override commands = (forward, backward)
  where
    rest : CaSubject → Attempt
    rest = make_cert d name days (common_name name cn_override)

    forward :
        generate_client_cert d name days cn_override ≡ (commands, ok succeeded)
        → IsGenerated d name days cn_override commands
    forward h =
        let (valid, h1) = (when_valid-eq [] (validate_name name) _).0 h in
        let (valid_cn, h2) =
          (when_valid-eq (codes "CN override: ") (validate_override cn_override) _).0 h1 in
        let (found, h3) = (with_container-eq (d.finds generating) _).0 h2 in
        let (s, reads, e, made) = with_subject-eq d (d.exec_run read_subject) rest h3 in
        let (e', ends) =
          (make_cert-eq d name days (common_name name cn_override) s {commands = (rest s).0}).0
            (ap (λ r. ((rest s).0, r)) made) in
        (valid, valid_cn, found, s, reads, e ∙ ap (λ cs. read_subject ∷ cs) e', ends)

    backward :
        IsGenerated d name days cn_override commands
        → generate_client_cert d name days cn_override ≡ (commands, ok succeeded)
    backward (valid, valid_cn, found, s, reads, e, ends) =
        (when_valid-eq [] (validate_name name) _).1 (
          valid,
          (when_valid-eq (codes "CN override: ") (validate_override cn_override) _).1 (
            valid_cn,
            (with_container-eq (d.finds generating) _).1 (
              found,
              eq-with_subject d (d.exec_run read_subject) rest s reads
                  ∙ rw
                      (
                        (make_cert-eq d name days (common_name name cn_override) s).1 (refl, ends),
                        e,
                      )
                      refl,
            ),
          ),
        )
