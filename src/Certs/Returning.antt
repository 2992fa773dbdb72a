-- ===== src/Certs/Returning.antt =====
-- A certificate tool raises nothing where its search for the container does not.
use fast_tak.Base.{
  ℕ, String, inl, inr, Bool, true, false, Option, none, some, [], Bool-cases, ◌==◌, nat_eq,
}
use fast_tak.Base.Result.{Result, ok, err}
use fast_tak.Base.Text.{codes, codes_eq}
use fast_tak.Backup.Names.{Name}
use fast_tak.Certs.Subject.{Chars}
use fast_tak.Certs.{
  common_name, read_subject, certmod, Command, generating, exporting, registering, Docker, Attempt,
  validate_name, when_valid, with_container, exec_then, must_run, with_subject, make_cert,
  generate_client_cert, write_nodered_pems, register_admin_cert,
}

-- Looking for the container does not raise.
abbrev pub Returns {ℓ} : {A : Type ℓ} → Result A → Type 0
Returns (ok a) = Unit {0}
Returns (err e) = ⊥

with_container-Returns :
    (found : Result Bool) (rest : Attempt)
    → Returns found
    → Returns rest.1
    → Returns (with_container found rest).1
unfolding with_container
with_container-Returns (ok true) rest f h = h
with_container-Returns (ok false) rest f h = tt
with_container-Returns (err e) rest f h = elim f [ ]

when_valid-Returns :
    (prefix : Chars) (wrong : Option Chars) (rest : Attempt)
    → Returns rest.1
    → Returns (when_valid prefix wrong rest).1
unfolding when_valid
when_valid-Returns prefix none rest h = h
when_valid-Returns prefix (some w) rest h = tt

exec_then-Returns :
    (d : Docker) (prefix : Chars) (width : ℕ) (c : Command) (r : Result (ℕ × Chars))
    (rest : Attempt)
    → Returns rest.1
    → Returns (exec_then d prefix width c r rest).1
unfolding exec_then
exec_then-Returns d prefix width c (err e) rest h = tt
exec_then-Returns d prefix width c (ok (code, output)) (cs, reply) h =
    elim (Bool-cases (code == 0)) [ inl ends ↦ rw ends h | inr fails ↦ rw fails tt ]

must_run-Returns :
    (d : Docker) (prefix : String) (c : Command) (rest : Attempt)
    → Returns rest.1
    → Returns (must_run d prefix c rest).1
unfolding must_run
must_run-Returns d prefix c rest = exec_then-Returns d (codes prefix) 300 c (d.exec_run c) rest

pub generate_client_cert-Returns :
    (d : Docker) (name : Name) (days : ℕ)
    → Returns (d.finds generating)
    → Returns (generate_client_cert d name days none).1
unfolding generate_client_cert with_subject make_cert common_name
generate_client_cert-Returns d name days found = when_valid-Returns [] (validate_name name) _ (
    when_valid-Returns (codes "CN override: ") _ _
      (with_container-Returns (d.finds generating) _ found (by_subject (d.exec_run read_subject))))
  where
    by_subject :
        (r : Result (ℕ × Chars)) → Returns (with_subject d r (make_cert d name days name)).1
    by_subject (err e) = tt
    by_subject (ok (code, output)) = must_run-Returns d "CSR generation failed: " _ _ (
        must_run-Returns d "Signing failed: " _ _
          (must_run-Returns d "P12 creation failed: " _ _ tt))

pub write_nodered_pems-Returns :
    (d : Docker) (name : Name) → Returns (d.finds exporting) → Returns (write_nodered_pems d name).1
unfolding write_nodered_pems
write_nodered_pems-Returns d name found =
    when_valid-Returns [] (validate_name name) _
      (with_container-Returns (d.finds exporting) _ found (must_run-Returns d "" _ _ tt))

pub register_admin_cert-Returns :
    (d : Docker) (name : Name)
    → Returns (d.finds registering)
    → Returns (register_admin_cert d name).1
unfolding register_admin_cert
register_admin_cert-Returns d name found =
    with_container-Returns (d.finds registering) _ found
      (exec_then-Returns d [] 500 _ (d.exec_run (certmod name)) _ tt)
