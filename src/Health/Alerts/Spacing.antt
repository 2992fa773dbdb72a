-- ===== src/Health/Alerts/Spacing.antt =====
-- Two notifications about one service are at least the cooldown apart.
use fast_tak.Base.{
  ℕ, String, Bool, true, false, ◌&&◌, ◌+◌, ◌≤◌, List, [], ◌∷◌, arith, ◌==◌, string_eq,
  if◌then◌else◌,
}
use fast_tak.Base.Dict.{lookup-insert}
use fast_tak.Health.Alerts.{
  AlertState, Call, Effect, send_alert_email, last_alert, decide_call, effects, update_state,
  check_and_alert,
}

abbrev pub sends_email : List Effect → Bool
sends_email [] = false
sends_email (send_alert_email subject body ∷ out) = true
sends_email (_ ∷ out) = sends_email out

-- The times of the calls that send a notification about the service.
unfoldable pub alert_times : ℕ → String → List Call → AlertState → List ℕ
alert_times cooldown service [] s = []
alert_times cooldown service (c ∷ calls) s =
    let rest = alert_times cooldown service calls (check_and_alert cooldown c s).0 in
    if c.service == service && sends_email (check_and_alert cooldown c s).1
    then c.now ∷ rest
    else rest

-- Each time is at least the cooldown after the one before it.
abbrev pub IsSpaced : ℕ → ℕ → List ℕ → Type 0
IsSpaced cooldown last [] = Unit
IsSpaced cooldown last (t ∷ ts) = (last + cooldown ≤ t) × IsSpaced cooldown t ts

module _ (cooldown : ℕ) (service : String) where
  IsSpaced-step :
      (c : Call) (s : AlertState) (rest : List ℕ)
      → IsSpaced cooldown (last_alert service (check_and_alert cooldown c s).0) rest
      → IsSpaced cooldown (last_alert service s) (
          if c.service == service && sends_email (check_and_alert cooldown c s).1
          then c.now ∷ rest
          else rest)
  unfolding check_and_alert decide_call update_state effects
  IsSpaced-step c s rest h = ground (arith, lookup-insert service c.service c.now s.last_alert_time)

  -- In any sequence of calls, at any times, the notifications about a service are at least the
  -- cooldown apart, and the first is at least the cooldown after the last one before.
  pub alert_times-IsSpaced :
      (calls : List Call) (s : AlertState)
      → IsSpaced cooldown (last_alert service s) (alert_times cooldown service calls s)
  unfolding alert_times
  alert_times-IsSpaced [] s = tt
  alert_times-IsSpaced (c ∷ calls) s =
      IsSpaced-step c s _ (alert_times-IsSpaced calls (check_and_alert cooldown c s).0)
