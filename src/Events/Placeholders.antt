-- ===== src/Events/Placeholders.antt =====
-- The text of a query has a placeholder for each parameter, and nothing that a request brings.
use fast_tak.Base.{
  ℕ, String, ◌<>◌, ◌+◌, ◌≡◌, refl, ap, Bool, true, false, Option, none, some, List, [], ◌∷◌, ◌++◌,
  ◌==◌, nat_eq, string_eq, arith, if◌then◌else◌, length, length-append, All,
}
use fast_tak.Base.Text.{codes, codes-append}
use fast_tak.Events.{
  Filters, Param, word, time, number, Clauses, append, add_word, add_time, build_where, join_and,
  where_sql, build_query,
}

-- The signs that the database driver takes for placeholders.
unfoldable pub percents : List ℕ → ℕ
percents [] = 0
percents (x ∷ xs) = (if x == b'%' then 1 else 0) + percents xs

abbrev pub placeholders : String → ℕ
placeholders s = percents (codes s)

percents-append : (xs ys : List ℕ) → percents (xs ++ ys) ≡ percents xs + percents ys
unfolding percents
percents-append [] ys = omega arith
percents-append (x ∷ xs) ys = omega (arith, percents-append xs ys)

placeholders-append : (s t : String) → placeholders (s <> t) ≡ placeholders s + placeholders t
placeholders-append s t = rw (codes-append s t) (percents-append (codes s) (codes t))

-- Each condition has one placeholder, and there are as many parameters.
record IsPaired (c : Clauses) : Type 0 where
  each : All (λ s. placeholders s ≡ 1) c.conditions
  as_many : length c.params ≡ length c.conditions

All-append {ℓ} :
    {A : Type ℓ} (P : A → Type 0) (xs : List A) {a : A} → All P xs → P a → All P (xs ++ a ∷ [])
All-append P [] h p = (p, tt)
All-append P (x ∷ xs) h p = (h.0, All-append P xs h.1 p)

append-IsPaired :
    (condition : String) (p : Param) (c : Clauses)
    → placeholders condition ≡ 1
    → IsPaired c
    → IsPaired (append condition p c)
unfolding append
append-IsPaired condition p c one h = record {
  each = All-append (λ s. placeholders s ≡ 1) c.conditions h.each one;
  as_many = omega (
    arith,
    h.as_many,
    length-append c.params (p ∷ []),
    length-append c.conditions (condition ∷ []),
  );
}

add_word-IsPaired :
    (condition : String) (w : Option String) (c : Clauses)
    → placeholders condition ≡ 1
    → IsPaired c
    → IsPaired (add_word condition w c)
unfolding add_word
add_word-IsPaired condition none c one h = h
add_word-IsPaired condition (some s) c one h = by_text (s == "")
  where
    by_text : (empty : Bool) → IsPaired (if empty then c else append condition (word s) c)
    by_text true = h
    by_text false = append-IsPaired condition (word s) c one h

add_time-IsPaired :
    (condition : String) (t : Option ℕ) (c : Clauses)
    → placeholders condition ≡ 1
    → IsPaired c
    → IsPaired (add_time condition t c)
unfolding add_time
add_time-IsPaired condition none c one h = h
add_time-IsPaired condition (some t) c one h = append-IsPaired condition (time t) c one h

build_where-IsPaired : (f : Filters) → IsPaired (build_where f)
unfolding build_where percents nat_eq
build_where-IsPaired f = add_time-IsPaired "timestamp <= %s" f.until _ refl (
    add_time-IsPaired "timestamp >= %s" f.since _ refl (
      add_word-IsPaired "target_id = %s" f.target_id _ refl (
        add_word-IsPaired "target_type = %s" f.target_type _ refl (
          add_word-IsPaired "action = %s" f.action _ refl (
            add_word-IsPaired "actor = %s" f.actor _ refl (
              add_word-IsPaired "source = %s" f.source _ refl
                (record { each = tt; as_many = refl })))))))

placeholders-join_and :
    (conditions : List String)
    → All (λ s. placeholders s ≡ 1) conditions
    → placeholders (join_and conditions) ≡ length conditions
unfolding join_and
placeholders-join_and [] h = unfold percents in refl
placeholders-join_and (c ∷ []) h = omega (arith, h.0)
placeholders-join_and (c ∷ k ∷ conditions) h = omega (
  arith,
  h.0,
  placeholders-join_and (k ∷ conditions) h.1,
  placeholders-append c (" AND " <> join_and (k ∷ conditions)),
  placeholders-append " AND " (join_and (k ∷ conditions)),
  and_has_none,
)
  where
    and_has_none : placeholders " AND " ≡ 0
    and_has_none = unfold percents nat_eq in refl

placeholders-where_sql :
    (conditions : List String)
    → All (λ s. placeholders s ≡ 1) conditions
    → placeholders (where_sql conditions) ≡ length conditions
unfolding where_sql
placeholders-where_sql [] h = unfold percents in refl
placeholders-where_sql (c ∷ conditions) h = omega (
  arith,
  placeholders-join_and (c ∷ conditions) h,
  placeholders-append " WHERE " (join_and (c ∷ conditions)),
  where_has_none,
)
  where
    where_has_none : placeholders " WHERE " ≡ 0
    where_has_none = unfold percents nat_eq in refl

-- Which filters a request gives.
abbrev pub SameWords : Option String → Option String → Type 0
SameWords none none = Unit
SameWords (some s) (some t) = (s == "") ≡ (t == "")
SameWords _ _ = ⊥

abbrev pub SameTimes : Option ℕ → Option ℕ → Type 0
SameTimes none none = Unit
SameTimes (some t) (some u) = Unit
SameTimes _ _ = ⊥

pub record GivesSame (f g : Filters) : Type 0 where
  pub source : SameWords f.source g.source
  pub actor : SameWords f.actor g.actor
  pub action : SameWords f.action g.action
  pub target_type : SameWords f.target_type g.target_type
  pub target_id : SameWords f.target_id g.target_id
  pub since : SameTimes f.since g.since
  pub until : SameTimes f.until g.until

add_word-same :
    (condition : String) (v w : Option String) (c d : Clauses)
    → SameWords v w
    → c.conditions ≡ d.conditions
    → (add_word condition v c).conditions ≡ (add_word condition w d).conditions
unfolding add_word append
add_word-same condition none none c d h e = e
add_word-same condition none (some t) c d h e = absurd h
add_word-same condition (some s) none c d h e = absurd h
add_word-same condition (some s) (some t) c d h e = ground (arith, h, e)

add_time-same :
    (condition : String) (v w : Option ℕ) (c d : Clauses)
    → SameTimes v w
    → c.conditions ≡ d.conditions
    → (add_time condition v c).conditions ≡ (add_time condition w d).conditions
unfolding add_time append
add_time-same condition none none c d h e = e
add_time-same condition none (some t) c d h e = absurd h
add_time-same condition (some s) none c d h e = absurd h
add_time-same condition (some s) (some t) c d h e =
    ap (λ (cs : List String). cs ++ condition ∷ []) e

build_where-same :
    (f g : Filters) → GivesSame f g → (build_where f).conditions ≡ (build_where g).conditions
unfolding build_where
build_where-same f g h = add_time-same "timestamp <= %s" f.until g.until _ _ h.until (
    add_time-same "timestamp >= %s" f.since g.since _ _ h.since (
      add_word-same "target_id = %s" f.target_id g.target_id _ _ h.target_id (
        add_word-same "target_type = %s" f.target_type g.target_type _ _ h.target_type (
          add_word-same "action = %s" f.action g.action _ _ h.action (
            add_word-same "actor = %s" f.actor g.actor _ _ h.actor
              (add_word-same "source = %s" f.source g.source _ _ h.source refl))))))

-- The text of a query depends on nothing but which filters the request gives: two requests that give
-- the same ones, with whatever values and limits, have the same text. It has exactly as many
-- placeholders as the query has parameters.
pub build_query_text :
    (f g : Filters) (m n : ℕ)
    → GivesSame f g
    → ((build_query f m).0 ≡ (build_query g n).0)
      × (placeholders (build_query f m).0 ≡ length (build_query f m).1)
unfolding build_query
build_query_text f g m n h =
    (ap (λ (cs : List String). select <> (where_sql cs <> order)) (build_where-same f g h), counted)
  where
    select : String
    select =
        "SELECT id, timestamp, source, actor, action, target_type, target_id, detail, ip::text AS ip, agency_id FROM fastak_events"

    order : String
    order = " ORDER BY timestamp DESC LIMIT %s"

    select_has_none : placeholders select ≡ 0
    select_has_none = unfold percents nat_eq in refl

    order_has_one : placeholders order ≡ 1
    order_has_one = unfold percents nat_eq in refl

    counted : placeholders (build_query f m).0 ≡ length (build_query f m).1
    counted =
        let paired = build_where-IsPaired f in
        let conditions = (build_where f).conditions in
        omega (
          arith,
          paired.as_many,
          placeholders-where_sql conditions paired.each,
          select_has_none,
          order_has_one,
          placeholders-append select (where_sql conditions <> order),
          placeholders-append (where_sql conditions) order,
          length-append (build_where f).params (number m ∷ []),
        )
