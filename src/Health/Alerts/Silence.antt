-- ===== src/Health/Alerts/Silence.antt =====
-- When the engine speaks and when it keeps silent.
use fast_tak.Base.{
  ℕ, String, ◌+◌, ◌≤◌, ◌<◌, ◌≡◌, ◌≢◌, ◌↔◌, ◌⊎◌, refl, true, false, some, List, [], ◌∷◌, arith, ◌==◌,
  All, string_eq, option_eq, if◌then◌else◌,
}
use fast_tak.Base.Dict.{lookup, lookup-insert}
use fast_tak.Health.Alerts.{
  AlertState, Call, last_alert, decide_call, effects, update_state, check_and_alert,
}
use fast_tak.Health.Alerts.Spacing.{sends_email, alert_times}

module _ (cooldown : ℕ) where
  -- A call sets the last state of its service to the state reported, notified or not, and leaves
  -- every other service alone.
  pub last_state-check_and_alert :
      (c : Call) (s : AlertState) (service : String)
      → lookup service (check_and_alert cooldown c s).0.last_state
        ≡ (if service == c.service then some c.new_state else lookup service s.last_state)
  unfolding check_and_alert update_state
  last_state-check_and_alert c s service = lookup-insert service c.service c.new_state s.last_state

  -- The four conditions of a notification.
  pub record Warrants (c : Call) (s : AlertState) : Type 0 where
    pub changed : lookup c.service s.last_state ≢ some c.new_state
    pub not_ok : c.new_state ≢ "ok"
    pub verdict : c.should_alert ≡ true
    pub elapsed : last_alert c.service s + cooldown ≤ c.now

  Warrants-of-sends :
      (c : Call) (s : AlertState)
      → sends_email (check_and_alert cooldown c s).1 ≡ true
      → Warrants c s
  unfolding check_and_alert decide_call effects option_eq
  Warrants-of-sends c s h = ground arith

  sends-of-Warrants :
      (c : Call) (s : AlertState)
      → Warrants c s
      → sends_email (check_and_alert cooldown c s).1 ≡ true
  unfolding check_and_alert decide_call effects option_eq
  sends-of-Warrants c s w = ground arith

  -- A call notifies exactly when the state changed to one that is not ok, the evaluator wants an
  -- alert, and the cooldown since the service's last alert is over.
  pub check_and_alert_notifies :
      (c : Call) (s : AlertState)
      → (sends_email (check_and_alert cooldown c s).1 ≡ true) ↔ Warrants c s
  check_and_alert_notifies c s = (Warrants-of-sends c s, sends-of-Warrants c s)

  -- The call is about another service, or reports this state.
  abbrev pub Reports : String → String → Call → Type 0
  Reports service state c = (c.service ≢ service) ⊎ (c.new_state ≡ state)

  steady_step :
      (c : Call) (s : AlertState) {service state : String}
      → lookup service s.last_state ≡ some state
      → Reports service state c
      → (lookup service (check_and_alert cooldown c s).0.last_state ≡ some state)
        × (((c.service == service) ≡ true) → sends_email (check_and_alert cooldown c s).1 ≡ false)
  unfolding option_eq
  steady_step c s {service} h r =
      ground (arith, last_state-check_and_alert c s service, Warrants-of-sends c s)

  -- While every poll of a service reports the state that it is in, no notification about it is sent.
  pub steady_is_silent :
      (service state : String) (calls : List Call) (s : AlertState)
      → lookup service s.last_state ≡ some state
      → All (Reports service state) calls
      → alert_times cooldown service calls s ≡ []
  unfolding alert_times
  steady_is_silent service state [] s h r = refl
  steady_is_silent service state (c ∷ calls) s h (r, rs) =
      let (next, quiet) = steady_step c s h r in
      ground (
        arith,
        steady_is_silent service state calls (check_and_alert cooldown c s).0 next rs,
        quiet,
      )

  suppressed_step :
      (c : Call) (s : AlertState)
      → c.now < last_alert c.service s + cooldown
      → sends_email (check_and_alert cooldown c s).1 ≡ false
  suppressed_step c s h = ground (arith, Warrants-of-sends c s)

  -- A change that falls into the cooldown is never notified afterwards: as long as the polls of the
  -- service go on reporting that state, not even once the cooldown is over.
  pub suppressed_is_never_sent :
      (c : Call) (calls : List Call) (s : AlertState)
      → c.now < last_alert c.service s + cooldown
      → All (Reports c.service c.new_state) calls
      → alert_times cooldown c.service (c ∷ calls) s ≡ []
  unfolding alert_times
  suppressed_is_never_sent c calls s h steady =
      let after = (check_and_alert cooldown c s).0 in
      ground (
        arith,
        suppressed_step c s h,
        last_state-check_and_alert c s c.service,
        λ (e : lookup c.service after.last_state ≡ some c.new_state).
            steady_is_silent c.service c.new_state calls after e steady,
      )
