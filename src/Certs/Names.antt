-- ===== src/Certs/Names.antt =====
-- What may stand in the variables of the commands that the certificate tools run.
use fast_tak.Base.{
  ℕ, String, ◌≡◌, refl, Bool, true, false, Option, none, some, List, [], ◌∷◌, arith, ◌==◌, nat_eq,
  All, In, All-In, Bool-cases, inl, inr, if◌then◌else◌,
}
use fast_tak.Base.Result.{Result, ok, err}
use fast_tak.Base.Text.{codes, codes_eq}
use fast_tak.Backup.Names.{Name}
use fast_tak.Certs.Subject.{Chars, CaSubject, default_subject, parse_ca_subject}
use fast_tak.Certs.{
  Command, read_subject, request_cert, sign_cert, bundle_p12, export_pems, remove_pems, revoke_file,
  remove_file, certmod, Docker, Attempt, validate_name, when_valid, with_container, exec_then,
  must_run, with_subject, common_name, validate_override, make_cert, generate_client_cert,
  write_nodered_pems, after_removal, remove_nodered_pems, revoke_via_crl, revoke_cert_by_name,
  generating, exporting, removing, revoking, done,
}

-- A call of one of the tools that take a name from a request.
pub data ToolCall : Type 0 where
  generate : Name → ℕ → Option Name → ToolCall
  export remove revoke : Name → ToolCall

abbrev pub run_tool : Docker → ToolCall → Attempt
run_tool d (generate name days cn_override) = generate_client_cert d name days cn_override
run_tool d (export name) = write_nodered_pems d name
run_tool d (remove name) = remove_nodered_pems d name
run_tool d (revoke name) = revoke_cert_by_name d name

-- The names that a command is given.
abbrev pub names_of : Command → List Name
names_of read_subject = []
names_of (request_cert name cn subject) = name ∷ cn ∷ []
names_of (sign_cert name days) = name ∷ []
names_of (bundle_p12 name) = name ∷ []
names_of (export_pems name) = name ∷ []
names_of (remove_pems name) = name ∷ []
names_of (revoke_file name) = name ∷ []
names_of (remove_file name) = name ∷ []
names_of (certmod name) = name ∷ []

abbrev pub IsNamed : Command → Type 0
IsNamed c = All (λ name. validate_name name ≡ none) (names_of c)

abbrev AllNamed : Attempt → Type 0
AllNamed a = All IsNamed a.0

when_valid-AllNamed :
    (prefix : Chars) (wrong : Option Chars) (rest : Attempt)
    → (wrong ≡ none → AllNamed rest)
    → AllNamed (when_valid prefix wrong rest)
unfolding when_valid
when_valid-AllNamed prefix none rest h = h refl
when_valid-AllNamed prefix (some w) rest h = tt

with_container-AllNamed :
    (found : Result Bool) (rest : Attempt) → AllNamed rest → AllNamed (with_container found rest)
unfolding with_container
with_container-AllNamed (ok true) rest h = h
with_container-AllNamed (ok false) rest h = tt
with_container-AllNamed (err e) rest h = tt

exec_then-AllNamed :
    (d : Docker) (prefix : Chars) (width : ℕ) (c : Command) (r : Result (ℕ × Chars))
    (rest : Attempt)
    → IsNamed c
    → AllNamed rest
    → AllNamed (exec_then d prefix width c r rest)
unfolding exec_then
exec_then-AllNamed d prefix width c (err e) rest own h = (own, tt)
exec_then-AllNamed d prefix width c (ok (code, output)) (cs, reply) own h =
    elim (Bool-cases (code == 0)) [ inl ends ↦ rw ends (own, h) | inr fails ↦ rw fails (own, tt) ]

must_run-AllNamed :
    (d : Docker) (prefix : String) (c : Command) (rest : Attempt)
    → IsNamed c
    → AllNamed rest
    → AllNamed (must_run d prefix c rest)
unfolding must_run
must_run-AllNamed d prefix c rest = exec_then-AllNamed d (codes prefix) 300 c (d.exec_run c) rest

with_subject-AllNamed :
    (d : Docker) (r : Result (ℕ × Chars)) (rest : CaSubject → Attempt)
    → ((s : CaSubject) → AllNamed (rest s))
    → AllNamed (with_subject d r rest)
unfolding with_subject
with_subject-AllNamed d (err e) rest h = (tt, tt)
with_subject-AllNamed d (ok (code, output)) rest h =
    (tt, h (if code == 0 then parse_ca_subject output else default_subject))

common_name-valid :
    (name : Name) (cn_override : Option Name)
    → validate_name name ≡ none
    → validate_override cn_override ≡ none
    → validate_name (common_name name cn_override) ≡ none
unfolding common_name validate_override
common_name-valid name none valid h = valid
common_name-valid name (some cn) valid h = elim (codes_eq.dec cn []) [
  | yes p ↦ ground (arith, p)
  | no n ↦ ground (arith, n)
]

make_cert-AllNamed :
    (d : Docker) (name : Name) (days : ℕ) (cn : Name) (s : CaSubject)
    → validate_name name ≡ none
    → validate_name cn ≡ none
    → AllNamed (make_cert d name days cn s)
unfolding make_cert
make_cert-AllNamed d name days cn s valid valid_cn =
    must_run-AllNamed d "CSR generation failed: " (request_cert name cn s) _ (valid, (valid_cn, tt))
      (must_run-AllNamed d "Signing failed: " (sign_cert name days) _ (valid, tt)
        (must_run-AllNamed d "P12 creation failed: " (bundle_p12 name) done (valid, tt) tt))

after_removal-AllNamed :
    (d : Docker) (c : Command) (r : Result (ℕ × Chars)) → IsNamed c → AllNamed (after_removal d c r)
unfolding after_removal
after_removal-AllNamed d c (ok r) own = (own, tt)
after_removal-AllNamed d c (err e) own = (own, tt)

run_tool-AllNamed : (d : Docker) (t : ToolCall) → AllNamed (run_tool d t)
unfolding generate_client_cert write_nodered_pems remove_nodered_pems revoke_cert_by_name
    revoke_via_crl
run_tool-AllNamed d (generate name days cn_override) =
    when_valid-AllNamed [] (validate_name name) _ (λ valid.
      when_valid-AllNamed (codes "CN override: ") (validate_override cn_override) _ (λ valid_cn.
        with_container-AllNamed (d.finds generating) _ (
          with_subject-AllNamed d (d.exec_run read_subject) _ (λ s.
            make_cert-AllNamed d name days (common_name name cn_override) s valid
              (common_name-valid name cn_override valid valid_cn)))))
run_tool-AllNamed d (export name) = when_valid-AllNamed [] (validate_name name) _ (λ valid.
    with_container-AllNamed (d.finds exporting) _
      (must_run-AllNamed d "" (export_pems name) done (valid, tt) tt))
run_tool-AllNamed d (remove name) = when_valid-AllNamed [] (validate_name name) _ (λ valid.
    with_container-AllNamed (d.finds removing) _
      (after_removal-AllNamed d (remove_pems name) (d.exec_run (remove_pems name)) (valid, tt)))
run_tool-AllNamed d (revoke name) = when_valid-AllNamed [] (validate_name name) _ (λ valid.
    with_container-AllNamed (d.finds revoking) _ (
      exec_then-AllNamed d [] 500 (revoke_file name) (d.exec_run (revoke_file name)) done
        (valid, tt) tt))

-- Whatever name a request brings, the tools that generate, export, remove or revoke by name run a
-- command in TAK Server's container only with names that `_validate_name` finds nothing wrong with.
pub run_tool_names :
    (d : Docker) (t : ToolCall) (c : Command) (name : Name)
    → In c (run_tool d t).0
    → In name (names_of c)
    → validate_name name ≡ none
run_tool_names d t c name i j =
    All-In (λ n. validate_name n ≡ none) j (All-In IsNamed i (run_tool-AllNamed d t))
