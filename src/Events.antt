-- ===== src/Events.antt =====
-- The event routes (monitor/app/api/events/router.py): the SQL text and the parameters that the filters
-- of a request give, and the replies. Times are natural numbers in seconds.
pub mod Selection
pub mod Placeholders
mod Tests
use fast_tak.Base.{
  ℕ, String, ◌<>◌, ◌≡◌, Bool, true, false, not, ◌&&◌, Option, none, some, List, [], ◌∷◌, ◌++◌, ◌==◌,
  nat_eq, string_eq, length, leb, if◌then◌else◌,
}
use fast_tak.Base.Result.{Result, ok, err, http_exception, ◌>>=◌}

-- The optional filters of a request.
pub record Filters : Type 0 where
  pub source : Option String
  pub actor : Option String
  pub action : Option String
  pub target_type : Option String
  pub target_id : Option String
  pub since : Option ℕ
  pub until : Option ℕ

pub data Param : Type 0 where
  word : String → Param
  time : ℕ → Param
  number : ℕ → Param

-- The two lists that `_build_query` appends to.
pub record Clauses : Type 0 where
  pub conditions : List String
  pub params : List Param

unfoldable pub append : String → Param → Clauses → Clauses
append condition p c = record {
  conditions = c.conditions ++ condition ∷ [];
  params = c.params ++ p ∷ [];
}

-- `if source:` on a text, which may be empty.
unfoldable pub add_word : String → Option String → Clauses → Clauses
add_word condition none c = c
add_word condition (some s) c = if s == "" then c else append condition (word s) c

-- `if since:` on a time, which is always true.
unfoldable pub add_time : String → Option ℕ → Clauses → Clauses
add_time condition none c = c
add_time condition (some t) c = append condition (time t) c

unfoldable pub build_where : Filters → Clauses
build_where f = add_time "timestamp <= %s" f.until (
    add_time "timestamp >= %s" f.since (
      add_word "target_id = %s" f.target_id (
        add_word "target_type = %s" f.target_type (
          add_word "action = %s" f.action (
            add_word "actor = %s" f.actor
              (add_word "source = %s" f.source (record { conditions = []; params = [] })))))))

-- `" AND ".join(where)`
unfoldable pub join_and : List String → String
join_and [] = ""
join_and (c ∷ []) = c
join_and (c ∷ k ∷ conditions) = c <> (" AND " <> join_and (k ∷ conditions))

unfoldable pub where_sql : List String → String
where_sql [] = ""
where_sql (c ∷ conditions) = " WHERE " <> join_and (c ∷ conditions)

unfoldable pub build_query : Filters → ℕ → String × List Param
build_query f limit =
    let c = build_where f in
    (
      "SELECT id, timestamp, source, actor, action, target_type, target_id, detail, ip::text AS ip, agency_id FROM fastak_events"
          <> (where_sql c.conditions <> " ORDER BY timestamp DESC LIMIT %s"),
      c.params ++ number limit ∷ [],
    )

-- A row of the table, its nullable columns as options.
pub record Row : Type 0 where
  pub id : ℕ
  pub timestamp : ℕ
  pub source : String
  pub actor : String
  pub action : String
  pub target_type : Option String
  pub target_id : Option String
  pub detail : Option String
  pub ip : Option String
  pub agency_id : Option ℕ

pub record EventList : Type 0 where
  pub count : ℕ
  pub events : List Row

-- `Query(ge=1, le=500)`
abbrev pub is_limit : ℕ → Bool
is_limit limit = leb 1 limit && leb limit 500

-- `fetch` stands for the database.
unfoldable pub list_events :
    (String → List Param → Result (List Row)) → Filters → ℕ → Result EventList
list_events fetch f limit =
    if is_limit limit
    then (fetch (build_query f limit).0 (build_query f limit).1 >>= λ rows.
        ok (record { count = length rows; events = rows }))
    else err (http_exception 422 "validation error")

abbrev pub or_empty : Option String → String
or_empty none = ""
or_empty (some s) = s

abbrev pub header : List String
header =
    "id" ∷ "timestamp" ∷ "source" ∷ "actor" ∷ "action" ∷ "target_type" ∷ "target_id" ∷ "detail"
    ∷ "ip" ∷ "agency_id" ∷ []

module _ (show : ℕ → String) (isoformat : ℕ → String)
    (flatten_detail : Option String → String) where
  -- `str(r["agency_id"] or "")`, where 0 counts as nothing.
  unfoldable pub show_agency : Option ℕ → String
  show_agency none = ""
  show_agency (some n) = if n == 0 then "" else show n

  unfoldable pub csv_row : Row → List String
  csv_row r =
      show r.id
      ∷ isoformat r.timestamp
      ∷ r.source
      ∷ r.actor
      ∷ r.action
      ∷ or_empty r.target_type
      ∷ or_empty r.target_id
      ∷ flatten_detail r.detail
      ∷ or_empty r.ip
      ∷ show_agency r.agency_id
      ∷ []

  unfoldable pub csv_rows : List Row → List (List String)
  csv_rows [] = []
  csv_rows (r ∷ rows) = csv_row r ∷ csv_rows rows

  -- The rows that the `csv` writer is given.
  unfoldable pub export_csv :
      (String → List Param → Result (List Row)) → Filters → ℕ → Result (List (List String))
  export_csv fetch f limit =
      if is_limit limit
      then (fetch (build_query f limit).0 (build_query f limit).1 >>= λ rows.
          ok (header ∷ csv_rows rows))
      else err (http_exception 422 "validation error")
