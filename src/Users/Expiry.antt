-- ===== src/Users/Expiry.antt =====
-- The expiry of users (`_check_user_expiry` of monitor/app/scheduler.py and
-- `get_users_pending_expiry` of monitor/app/api/users/identity.py): the calls that one pass makes, for
-- every way in which the identity provider and TAK Server may answer them.
pub mod Calls
use fast_tak.Base.{
  ℕ, String, ◌≡◌, Bool, true, false, Option, none, some, List, [], ◌∷◌, ◌++◌, if◌then◌else◌,
}
use fast_tak.Base.Result.{Error, Result, ok, err}
use fast_tak.Base.Python.{Python}
use fast_tak.Users.Attributes.{LdapUser, is_pending, is_active}

pub data ServiceCall : Type 0 where
  deactivate_user : ℕ → ServiceCall
  revoke_all_user_certs : String → ServiceCall
  mark_certs_revoked : ℕ → ServiceCall

-- The answers to the calls. There may be no client of TAK Server.
pub record Services : Type 0 where
  pub deactivates : ℕ → Result (Unit {0})
  pub tak : Option (String → Result Bool)

module _ (py : Python) (read_int : String → Option py.Num) (numeric_id : String → ℕ) where
  open py use {Num}

  -- `get_users_pending_expiry`
  unfoldable pub pending_users : Num → List LdapUser → List LdapUser
  pending_users now [] = []
  pending_users now (u ∷ users) =
      let rest = pending_users now users in
      if is_pending py read_int now u.attributes then u ∷ rest else rest

  -- `ak.mark_certs_revoked` after a complete revocation; an incomplete one and an exception end the user's turn.
  unfoldable pub mark_if : Result Bool → LdapUser → List ServiceCall
  mark_if (ok true) u = mark_certs_revoked (numeric_id u.id) ∷ []
  mark_if (ok false) u = []
  mark_if (err e) u = []

  unfoldable pub revoke_with : Option (String → Result Bool) → LdapUser → List ServiceCall
  revoke_with none u = []
  revoke_with (some revokes) u = revoke_all_user_certs u.id ∷ mark_if (revokes u.id) u

  unfoldable pub after_deactivation : Services → Result (Unit {0}) → LdapUser → List ServiceCall
  after_deactivation s (ok _) u = revoke_with s.tak u
  after_deactivation s (err e) u = []

  -- One turn of the loop, in its `try`.
  unfoldable pub check_user : Services → LdapUser → List ServiceCall
  check_user s u =
      if is_active py read_int u.attributes
      then deactivate_user (numeric_id u.id)
        ∷ after_deactivation s (s.deactivates (numeric_id u.id)) u
      else revoke_with s.tak u

  unfoldable pub check_users : Services → List LdapUser → List ServiceCall
  check_users s [] = []
  check_users s (u ∷ users) = check_user s u ++ check_users s users

  -- One pass, with the users that the identity provider lists.
  unfoldable pub check_user_expiry : Num → Services → Result (List LdapUser) → List ServiceCall
  check_user_expiry now s (err e) = []
  check_user_expiry now s (ok users) = check_users s (pending_users now users)
