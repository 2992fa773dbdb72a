-- ===== src/Events/Tests.antt =====
-- The theorems about events at concrete requests.
use fast_tak.Base.{◌≡◌, refl, true, none, some, [], ◌∷◌, string_eq, nat_eq, length}
use fast_tak.Base.Result.{ok, err, http_exception}
use fast_tak.Events.{
  Filters, word, time, number, append, add_word, add_time, build_where, join_and, where_sql,
  build_query, Row, list_events, csv_row, show_agency,
}
use fast_tak.Events.Selection.{selects, fits, selects-build_where}
use fast_tak.Events.Placeholders.{GivesSame, placeholders, build_query_text}

abbrev by_ann : Filters
by_ann = record {
  source = some "audit";
  actor = some "ann";
  action = some "";
  target_type = none;
  target_id = none;
  since = some 50;
  until = none;
}

abbrev by_bob : Filters
by_bob = record by_ann { actor = some "bob"; since = some 7 }

abbrev row : Row
row = record {
  id = 1;
  timestamp = 60;
  source = "audit";
  actor = "ann";
  action = "POST /api/users";
  target_type = none;
  target_id = none;
  detail = none;
  ip = none;
  agency_id = some 0;
}

sql_of_ann : build_query by_ann 50 ≡ (
  "SELECT id, timestamp, source, actor, action, target_type, target_id, detail, ip::text AS ip, agency_id FROM fastak_events WHERE source = %s AND actor = %s AND timestamp >= %s ORDER BY timestamp DESC LIMIT %s",
  word "audit" ∷ word "ann" ∷ time 50 ∷ number 50 ∷ [],
)
unfolding build_query build_where add_word add_time append where_sql join_and string_eq
sql_of_ann = refl

selects-build_where_example :
    selects (build_where by_ann).conditions (build_where by_ann).params row ≡ fits by_ann row
selects-build_where_example = selects-build_where by_ann row

fits-row : fits by_ann row ≡ true
unfolding string_eq
fits-row = refl

same_filters : GivesSame by_ann by_bob
unfolding string_eq
same_filters = record {
  source = refl;
  actor = refl;
  action = refl;
  target_type = tt;
  target_id = tt;
  since = tt;
  until = tt;
}

build_query_text_example :
    ((build_query by_ann 50).0 ≡ (build_query by_bob 9).0)
    × (placeholders (build_query by_ann 50).0 ≡ length (build_query by_ann 50).1)
build_query_text_example = build_query_text by_ann by_bob 50 9 same_filters

events_of_ann :
    list_events (λ sql params. ok (row ∷ [])) by_ann 50
    ≡ ok (record { count = 1; events = row ∷ [] })
unfolding list_events
events_of_ann = refl

too_many :
    list_events (λ sql params. ok []) by_ann 501 ≡ err (http_exception 422 "validation error")
unfolding list_events
too_many = refl

agency_zero :
    csv_row (λ n. "n") (λ n. "t") (λ d. "") row
    ≡ "n" ∷ "t" ∷ "audit" ∷ "ann" ∷ "POST /api/users" ∷ "" ∷ "" ∷ "" ∷ "" ∷ "" ∷ []
unfolding csv_row show_agency nat_eq
agency_zero = refl
