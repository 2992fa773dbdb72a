-- ===== src/Audit/Tests.antt =====
-- The audit theorems at a concrete request.
use fast_tak.Base.{ℕ, ◌≡◌, ◌<◌, refl, true, some, In, here, string_eq, nat_eq}
use fast_tak.Base.Python.{string}
use fast_tak.Base.Unary.{unary}
use fast_tak.Audit.{
  Json, leaf, object, no_members, member, json, Event, is_mutating, dispatch, body_of,
}
use fast_tak.Audit.Redaction.{IsRedacted, dispatch_events}

abbrev request : Json ℕ
request =
    object
      (member "name" (leaf (string "ann")) (member "smtp_password" (leaf (string "pw")) no_members))

abbrev recorded : Event unary
recorded = record {
  actor = "admin";
  method = "POST";
  path = "/api/users";
  status = 201;
  request_body = body_of unary (json request);
}

is_recorded : In recorded (dispatch unary "admin" "POST" "/api/users" (json request) 201)
unfolding dispatch string_eq
is_recorded = here refl

dispatch_events_example :
    (is_mutating unary "POST" ≡ true)
    × (201 < 400)
    × (recorded.actor ≡ "admin")
    × (recorded.path ≡ "/api/users")
    × ((j : Json ℕ) → recorded.request_body ≡ some j → IsRedacted unary j)
dispatch_events_example =
    dispatch_events unary "admin" "POST" "/api/users" (json request) 201 recorded is_recorded
