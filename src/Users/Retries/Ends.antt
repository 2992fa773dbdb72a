-- ===== src/Users/Retries/Ends.antt =====
-- The retries come to an end.
use fast_tak.Base.{
  ℕ, zero, suc, String, ◌≡◌, ◌≢◌, ◌≤◌, ◌+◌, refl, ap, true, false, Option, none, some, List, [],
  ◌∷◌, ◌++◌, arith, nat_eq,
}
use fast_tak.Users.Retries.{
  Response, refused, broken, garbled, answered, Answer, Event, logged_in, posted, requested, slept,
  Turn, returns, raises, later, again, Attempt, post_with, login_then, graphql_attempt,
  proxy_attempt, Outcome, returned, raised, fell_through, Run, before, after_turn, retry, graphql,
  proxy_request,
}

-- How often something is done.
abbrev pub is_request : Event → ℕ
is_request (posted token) = 1
is_request requested = 1
is_request logged_in = 0
is_request slept = 0

abbrev pub is_login : Event → ℕ
is_login logged_in = 1
is_login (posted token) = 0
is_login requested = 0
is_login slept = 0

abbrev pub is_pause : Event → ℕ
is_pause slept = 1
is_pause logged_in = 0
is_pause (posted token) = 0
is_pause requested = 0

unfoldable pub total : (Event → ℕ) → List Event → ℕ
total f [] = 0
total f (e ∷ events) = f e + total f events

total-append : (f : Event → ℕ) (xs ys : List Event) → total f (xs ++ ys) ≡ total f xs + total f ys
unfolding total
total-append f [] ys = omega arith
total-append f (x ∷ xs) ys = omega (arith, total-append f xs ys)

-- The bounds on a run of so many attempts, which does not fall through.
pub record IsBounded {A : Type 0} (attempts : ℕ) (r : Run A) : Type 0 where
  pub ended : r.outcome ≢ fell_through
  pub requests : total is_request r.events ≤ attempts
  pub logins : total is_login r.events ≤ attempts
  pub pauses : total is_pause r.events + 1 ≤ attempts

-- One attempt makes one request at most, logs in at most once and does not pause.
abbrev IsOne : List Event → Type 0
IsOne events =
    (total is_request events ≤ 1) × (total is_login events ≤ 1) × (total is_pause events ≡ 0)

post_with-IsOne :
    {A : Type 0} (token : String) (r : Response (Answer A))
    → (post_with token r).0 ≡ posted token ∷ []
unfolding post_with
post_with-IsOne token r = refl

login_then-IsOne :
    {A : Type 0} (post : String → Response (Answer A)) (login : Response String)
    → IsOne (login_then post login).0
unfolding login_then post_with total
login_then-IsOne post (refused code) = (omega arith, omega arith, refl)
login_then-IsOne post broken = (omega arith, omega arith, refl)
login_then-IsOne post garbled = (omega arith, omega arith, refl)
login_then-IsOne post (answered token) = (omega arith, omega arith, refl)

graphql_attempt-IsOne :
    {A : Type 0} (login : Response String) (post : String → Response (Answer A))
    (jwt : Option String)
    → IsOne (graphql_attempt login post jwt).0
unfolding graphql_attempt post_with total
graphql_attempt-IsOne login post none = login_then-IsOne post login
graphql_attempt-IsOne login post (some token) = (omega arith, omega arith, refl)

proxy_attempt-IsOne :
    {A : Type 0} (r : Response A) (jwt : Option String) → IsOne (proxy_attempt r jwt).0
unfolding proxy_attempt total
proxy_attempt-IsOne r jwt = (omega arith, omega arith, refl)

append_nil : (events : List Event) → events ++ [] ≡ events
append_nil [] = refl
append_nil (e ∷ events) = ap (λ (es : List Event). e ∷ es) (append_nil events)

module _ {A : Type 0} where
  -- An attempt that ends the loop.
  last-IsBounded :
      (events : List Event) (jwt : Option String) (o : Outcome A) (attempts : ℕ)
      → IsOne events
      → o ≢ fell_through
      → IsBounded (suc attempts) (record { events = events; jwt = jwt; outcome = o })
  last-IsBounded events jwt o attempts one ended = record {
    ended = ended;
    requests = omega arith;
    logins = omega arith;
    pauses = omega arith;
  }

  -- An attempt, with a pause or none, before the others.
  before-IsBounded :
      (events pause : List Event) (r : Run A) (attempts : ℕ)
      → IsOne events
      → (total is_request pause ≡ 0) × (total is_login pause ≡ 0) × (total is_pause pause ≤ 1)
      → IsBounded attempts r
      → IsBounded (suc attempts) (before (events ++ pause) r)
  unfolding before
  before-IsBounded events pause r attempts one still h = record {
    ended = h.ended;
    requests = omega (
      arith,
      h.requests,
      total-append is_request (events ++ pause) r.events,
      total-append is_request events pause,
    );
    logins = omega (
      arith,
      h.logins,
      total-append is_login (events ++ pause) r.events,
      total-append is_login events pause,
    );
    pauses = omega (
      arith,
      h.pauses,
      total-append is_pause (events ++ pause) r.events,
      total-append is_pause events pause,
    );
  }

  after_turn-last :
      (events : List Event) (jwt : Option String) (turn : Turn A) (rest : Run A)
      → IsOne events
      → IsBounded 1 (after_turn true events jwt turn rest)
  unfolding after_turn
  after_turn-last events jwt (returns a) rest one =
      last-IsBounded events jwt (returned a) 0 one (λ e. cc)
  after_turn-last events jwt (raises x) rest one =
      last-IsBounded events jwt (raised x) 0 one (λ e. cc)
  after_turn-last events jwt (later x) rest one =
      last-IsBounded events jwt (raised x) 0 one (λ e. cc)
  after_turn-last events jwt (again x) rest one =
      last-IsBounded events jwt (raised x) 0 one (λ e. cc)

  after_turn-more :
      (events : List Event) (jwt : Option String) (turn : Turn A) (rest : Run A) (attempts : ℕ)
      → IsOne events
      → IsBounded attempts rest
      → IsBounded (suc attempts) (after_turn false events jwt turn rest)
  unfolding after_turn
  after_turn-more events jwt (returns a) rest n one h =
      last-IsBounded events jwt (returned a) n one (λ e. cc)
  after_turn-more events jwt (raises x) rest n one h =
      last-IsBounded events jwt (raised x) n one (λ e. cc)
  after_turn-more events jwt (later x) rest n one h =
      before-IsBounded events (slept ∷ []) rest n one (unfold total in (refl, refl, omega arith)) h
  after_turn-more events jwt (again x) rest n one h =
      rw (append_nil events) at
        (before-IsBounded events [] rest n one (unfold total in (refl, refl, omega arith)) h)

  retry-IsBounded :
      (attempt : ℕ → Option String → Attempt A)
      → ((k : ℕ) (jwt : Option String) → IsOne (attempt k jwt).0)
      → (left k : ℕ) (jwt : Option String) → IsBounded (suc left) (retry attempt k (suc left) jwt)
  unfolding retry
  retry-IsBounded attempt one zero k jwt = after_turn-last _ _ _ _ (one k jwt)
  retry-IsBounded attempt one (suc left) k jwt =
      after_turn-more _ _ _ _ _ (one k jwt) (retry-IsBounded attempt one left (k + 1) _)

  -- Whatever LLDAP answers, `_graphql` returns or raises and never leaves its loop without a reply. It
  -- posts three times and logs in three times at most, and pauses twice at most.
  pub graphql-IsBounded :
      (login : ℕ → Response String) (post : ℕ → String → Response (Answer A)) (jwt : Option String)
      → IsBounded 3 (graphql login post jwt)
  unfolding graphql
  graphql-IsBounded login post jwt =
      retry-IsBounded _ (λ k t. graphql_attempt-IsOne (login k) (post k) t) 2 1 jwt

  -- The same of `_proxy_request`.
  pub proxy_request-IsBounded :
      (respond : ℕ → Response A) (jwt : Option String) → IsBounded 3 (proxy_request respond jwt)
  unfolding proxy_request
  proxy_request-IsBounded respond jwt =
      retry-IsBounded _ (λ k t. proxy_attempt-IsOne (respond k) t) 2 1 jwt
