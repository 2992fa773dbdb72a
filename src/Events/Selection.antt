-- ===== src/Events/Selection.antt =====
-- The conditions of the query select what the filters of the request ask for.
use fast_tak.Base.{
  ℕ, String, ◌≡◌, refl, Bool, true, false, ◌&&◌, ◌||◌, Option, none, some, List, [], ◌∷◌, ◌++◌,
  ◌==◌, nat_eq, string_eq, arith, leb, if◌then◌else◌,
}
use fast_tak.Events.{
  Filters, Param, word, time, number, Clauses, append, add_word, add_time, build_where, Row,
}

-- What PostgreSQL makes of a condition with its parameter. A comparison with NULL is not true.
abbrev eq_param : String → Param → Bool
eq_param s (word w) = s == w
eq_param s (time t) = false
eq_param s (number n) = false

abbrev eq_nullable : Option String → Param → Bool
eq_nullable none p = false
eq_nullable (some s) p = eq_param s p

abbrev at_least : ℕ → Param → Bool
at_least t (time u) = leb u t
at_least t (word w) = false
at_least t (number n) = false

abbrev at_most : ℕ → Param → Bool
at_most t (time u) = leb t u
at_most t (word w) = false
at_most t (number n) = false

unfoldable pub holds : String → Param → Row → Bool
holds condition p r =
    if condition == "source = %s"
    then eq_param r.source p
    else if condition == "actor = %s"
    then eq_param r.actor p
    else if condition == "action = %s"
    then eq_param r.action p
    else if condition == "target_type = %s"
    then eq_nullable r.target_type p
    else if condition == "target_id = %s"
    then eq_nullable r.target_id p
    else if condition == "timestamp >= %s"
    then at_least r.timestamp p
    else if condition == "timestamp <= %s"
    then at_most r.timestamp p
    else false

-- The conditions with their parameters in order, all of which must hold; `false` where the numbers differ.
unfoldable pub selects : List String → List Param → Row → Bool
selects [] [] r = true
selects (c ∷ conditions) (p ∷ params) r = holds c p r && selects conditions params r
selects _ _ r = false

-- What the documentation of the route says of each filter.
abbrev pub fits_word : Option String → String → Bool
fits_word none s = true
fits_word (some w) s = w == "" || s == w

abbrev pub fits_nullable : Option String → Option String → Bool
fits_nullable none s = true
fits_nullable (some w) none = w == ""
fits_nullable (some w) (some s) = w == "" || s == w

abbrev pub fits_since : Option ℕ → ℕ → Bool
fits_since none t = true
fits_since (some u) t = leb u t

abbrev pub fits_until : Option ℕ → ℕ → Bool
fits_until none t = true
fits_until (some u) t = leb t u

abbrev pub fits : Filters → Row → Bool
fits f r =
    fits_word f.source r.source
    && fits_word f.actor r.actor
    && fits_word f.action r.action
    && fits_nullable f.target_type r.target_type
    && fits_nullable f.target_id r.target_id
    && fits_since f.since r.timestamp
    && fits_until f.until r.timestamp

abbrev chosen : Clauses → Row → Bool
chosen c r = selects c.conditions c.params r

selects-append :
    (conditions : List String) (params : List Param) (c : String) (p : Param) (r : Row)
    → selects (conditions ++ c ∷ []) (params ++ p ∷ []) r
      ≡ (selects conditions params r && holds c p r)
unfolding selects
selects-append [] [] c p r = ground arith
selects-append [] (q ∷ []) c p r = ground arith
selects-append [] (q ∷ q' ∷ params) c p r = ground arith
selects-append (k ∷ []) [] c p r = ground arith
selects-append (k ∷ k' ∷ conditions) [] c p r = ground arith
selects-append (k ∷ conditions) (q ∷ params) c p r =
    ground (arith, selects-append conditions params c p r)

module _ (condition : String) (c : Clauses) (r : Row) where
  chosen-add_word :
      (w : Option String) (s : String)
      → ((x : String) → holds condition (word x) r ≡ (s == x))
      → chosen (add_word condition w c) r ≡ (chosen c r && fits_word w s)
  unfolding add_word append
  chosen-add_word none s h = ground arith
  chosen-add_word (some x) s h =
      ground (arith, h x, selects-append c.conditions c.params condition (word x) r)

  chosen-add_nullable :
      (w : Option String) (s : Option String)
      → ((x : String) → holds condition (word x) r ≡ eq_nullable s (word x))
      → chosen (add_word condition w c) r ≡ (chosen c r && fits_nullable w s)
  unfolding add_word append
  chosen-add_nullable none s h = ground arith
  chosen-add_nullable (some x) none h =
      ground (arith, h x, selects-append c.conditions c.params condition (word x) r)
  chosen-add_nullable (some x) (some s) h =
      ground (arith, h x, selects-append c.conditions c.params condition (word x) r)

  chosen-add_since :
      (w : Option ℕ)
      → ((u : ℕ) → holds condition (time u) r ≡ leb u r.timestamp)
      → chosen (add_time condition w c) r ≡ (chosen c r && fits_since w r.timestamp)
  unfolding add_time append
  chosen-add_since none h = ground arith
  chosen-add_since (some u) h =
      rw (selects-append c.conditions c.params condition (time u) r, h u) refl

  chosen-add_until :
      (w : Option ℕ)
      → ((u : ℕ) → holds condition (time u) r ≡ leb r.timestamp u)
      → chosen (add_time condition w c) r ≡ (chosen c r && fits_until w r.timestamp)
  unfolding add_time append
  chosen-add_until none h = ground arith
  chosen-add_until (some u) h =
      rw (selects-append c.conditions c.params condition (time u) r, h u) refl

-- The query selects a row exactly when the row fits every filter that is given: the texts that are not
-- empty are equal to the row's, with NULL equal to none, and the times are inclusive bounds. This is for
-- PostgreSQL's reading of the conditions, each with the parameter at its place.
pub selects-build_where :
    (f : Filters) (r : Row) → selects (build_where f).conditions (build_where f).params r ≡ fits f r
unfolding build_where holds selects string_eq
selects-build_where f r =
    rw
      (
        chosen-add_until "timestamp <= %s" _ r f.until (λ u. refl),
        chosen-add_since "timestamp >= %s" _ r f.since (λ u. refl),
        chosen-add_nullable "target_id = %s" _ r f.target_id r.target_id (λ x. refl),
        chosen-add_nullable "target_type = %s" _ r f.target_type r.target_type (λ x. refl),
        chosen-add_word "action = %s" _ r f.action r.action (λ x. refl),
        chosen-add_word "actor = %s" _ r f.actor r.actor (λ x. refl),
        chosen-add_word "source = %s" _ r f.source r.source (λ x. refl),
      )
      refl
