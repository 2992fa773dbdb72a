-- ===== src/Accounts/Calls.antt =====
-- The calls that the routes of service accounts make (monitor/app/api/service_accounts/router.py), with what
-- answers them, and what a route comes to.
use fast_tak.Base.{ℕ, String, Bool, Option, List, [], ◌∷◌, ◌++◌, nat_eq}
use fast_tak.Base.Result.{Result, ok, err, http_exception}
use fast_tak.Base.Text.{codes_eq}
use fast_tak.Backup.Names.{Name}
use fast_tak.Certs.Subject.{Chars}
use fast_tak.Certs.{Command, Docker, CertResult, Attempt}

pub data ServiceAccountMode : Type 0 where
  data_mode admin_mode : ServiceAccountMode

-- What `get_user` returns, as far as the handlers read it.
pub record Account : Type 0 where
  pub username : Name
  pub fastak_user_type : Option Chars

pub data Call : Type 0 where
  create_user : Name → Chars → Option (List Chars) → Chars → Call
  update_user : ℕ → Chars → Call
  set_user_groups : ℕ → List Chars → Call
  deactivate_user mark_certs_revoked : ℕ → Call
  revoke_all_user_certs : Name → Call
  exec : Command → Call

-- The answers to the calls. There may be no client of TAK Server. `create_user` answers with an id.
pub record Services : Type 0 where
  pub get_user : ℕ → Result (Option Account)
  pub group_names : Result (List Chars)
  pub creates : Name → Result ℕ
  pub updates : ℕ → Result (Unit {0})
  pub sets_groups : ℕ → Result (Unit {0})
  pub deactivates : ℕ → Result (Unit {0})
  pub marks : ℕ → Result (Unit {0})
  pub tak : Option (Name → Result Bool)
  pub docker : Docker

pub data Reply : Type 0 where
  created : ℕ → Name → ServiceAccountMode → ℕ → Reply
  success : Reply
  deleted : Name → Reply
  served : Name → Reply

-- The calls that are made, in order, and the reply or the error.
abbrev pub Outcome : Type 0
Outcome = List Call × Result Reply

abbrev pub refuse : ℕ → String → Outcome
refuse status detail = ([], err (http_exception status detail))

-- A call, and what follows if it raises nothing.
unfoldable pub then_do {ℓ} : {A : Type ℓ} → Call → Result A → (A → Outcome) → Outcome
then_do c (ok a) rest = let (calls, reply) = rest a in (c ∷ calls, reply)
then_do c (err e) rest = (c ∷ [], err e)

unfoldable pub execs : List Command → List Call
execs [] = []
execs (c ∷ commands) = exec c ∷ execs commands

-- A certificate tool, and what follows its result.
unfoldable pub with_tool : Attempt → (CertResult → Outcome) → Outcome
with_tool (commands, ok result) rest =
    let (calls, reply) = rest result in (execs commands ++ calls, reply)
with_tool (commands, err e) rest = (execs commands, err e)
