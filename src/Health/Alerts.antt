-- ===== src/Health/Alerts.antt =====
-- The alert engine (monitor/app/api/alerts/engine.py): the last known state and the last alert
-- time of each service, and `check_and_alert`, whose read-compare-update runs under one lock, so
-- that calls from any number of threads form a sequence. Times are in one unit, counted from 0.
pub mod Spacing
pub mod Silence
use fast_tak.Base.{
  ℕ, String, ◌+◌, ◌<>◌, ◌≡◌, Bool, true, false, not, ◌&&◌, Option, none, some, List, [], ◌∷◌, ◌++◌,
  leb, ◌==◌, string_eq, option_eq, if◌then◌else◌,
}
use fast_tak.Base.Dict.{Dict, lookup, lookup_or, insert}

-- `_last_state` and `_last_alert_time`, which reads 0 where nothing was written.
pub record AlertState : Type 0 where
  pub last_state : Dict String String
  pub last_alert_time : Dict String ℕ

-- What is recorded and sent outside the lock.
pub data Effect : Type 0 where
  record_event : String → String → String → Effect
  send_alert_email : String → String → Effect
  send_alert_sms : String → Effect

pub record Call : Type 0 where
  pub now : ℕ
  pub service : String
  pub new_state : String
  pub detail : String
  pub should_alert : Bool

abbrev pub shown : Option String → String
shown none = "None"
shown (some s) = s

abbrev pub last_alert : String → AlertState → ℕ
last_alert service s = lookup_or service 0 s.last_alert_time

-- What the locked part decides.
pub data Decision : Type 0 where
  nothing : Decision
  log_only : Decision
  notify : Decision
  recovered : Decision

-- The tests of the locked part, in their order.
unfoldable pub decide_call : ℕ → Call → AlertState → Decision
decide_call cooldown c s =
    let old = lookup c.service s.last_state in
    if old == some c.new_state
    then nothing
    else if old == none && c.new_state == "ok"
    then nothing
    else if not (c.new_state == "ok")
    then if c.should_alert && leb (last_alert c.service s + cooldown) c.now
      then notify
      else log_only
    else recovered

unfoldable pub update_state : Decision → Call → AlertState → AlertState
update_state d c s = record {
  last_state = insert c.service c.new_state s.last_state;
  last_alert_time = elim d [
    | notify ↦ insert c.service c.now s.last_alert_time
    | _ ↦ s.last_alert_time
  ];
}

unfoldable pub effects : Decision → Call → Option String → List Effect
effects d c old =
    let change = c.service <> ": " <> shown old <> " → " <> c.new_state in
    let logged = record_event c.service c.new_state (if c.detail == "" then change else c.detail) in
    let subject = c.service <> " is " <> c.new_state in
    elim d [
      | nothing ↦ []
      | log_only ↦ logged ∷ []
      | notify ↦
          logged
          ∷ send_alert_email subject (
              "Service: "
              <> c.service
              <> "\nState: "
              <> shown old
              <> " → "
              <> c.new_state
              <> "\n"
              <> c.detail)
          ∷ send_alert_sms ("[FastTAK] " <> subject)
          ∷ []
      | recovered ↦
          logged
          ∷ record_event c.service "recovered"
              (c.service <> " recovered: " <> shown old <> " → " <> c.new_state)
          ∷ []
    ]

unfoldable pub check_and_alert : ℕ → Call → AlertState → AlertState × List Effect
check_and_alert cooldown c s =
    let d = decide_call cooldown c s in
    (update_state d c s, effects d c (lookup c.service s.last_state))

-- A sequence of calls.
unfoldable pub run_calls : ℕ → List Call → AlertState → AlertState × List Effect
run_calls cooldown [] s = (s, [])
run_calls cooldown (c ∷ calls) s =
    let (s', out) = check_and_alert cooldown c s in
    let (s'', rest) = run_calls cooldown calls s' in (s'', out ++ rest)

abbrev pub no_history : AlertState
no_history = record { last_state = []; last_alert_time = [] }
