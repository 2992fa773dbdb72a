-- ===== src/Users/Retries.antt =====
-- The retries of the identity client (`_login`, `_graphql` and `_proxy_request` of
-- monitor/app/api/users/identity.py): what each attempt does, by the answers of the services, and the
-- loop over the attempts. The token is kept from one request to the next.
pub mod Ends
use fast_tak.Base.{
  ℕ, zero, suc, String, ◌≡◌, ◌+◌, Bool, true, false, not, ◌&&◌, ◌||◌, Option, none, some, List, [],
  ◌∷◌, ◌++◌, ◌==◌, nat_eq, leb, ltb, if◌then◌else◌,
}

pub data Raised : Type 0 where
  http_status : ℕ → Raised
  transport runtime_error value_error : Raised

-- How a request to an HTTP service ends: with a status that `raise_for_status` raises for, without an
-- answer, with a text that is no JSON, or with an answer.
pub data Response (A : Type 0) : Type 0 where
  refused : ℕ → Response A
  broken garbled : Response A
  answered : A → Response A

-- A GraphQL answer: without errors, or with errors that may say that the thing is already there.
pub data Answer (A : Type 0) : Type 0 where
  clean already_there errors : A → Answer A

pub data Event : Type 0 where
  logged_in : Event
  posted : String → Event
  requested slept : Event

-- What an attempt comes to: it ends the loop, it is to be made again after a pause, or at once. In
-- the last two cases the exception is raised instead, if it was the last attempt.
pub data Turn (A : Type 0) : Type 0 where
  returns : A → Turn A
  raises later again : Raised → Turn A

-- The `except` clauses: whether a client error ends the loop depends on the caller.
unfoldable pub on_status : {A : Type 0} → (ℕ → Bool) → ℕ → Turn A
on_status is_final code =
    if is_final code then raises (http_status code) else later (http_status code)

-- `400 <= code < 500 and code != 401`
abbrev pub is_final_graphql : ℕ → Bool
is_final_graphql code = leb 400 code && ltb code 500 && not (code == 401)

-- `400 <= code < 500`
abbrev pub is_final_proxy : ℕ → Bool
is_final_proxy code = leb 400 code && ltb code 500

-- What an attempt does, the token that it leaves, and what it comes to.
abbrev pub Attempt : Type 0 → Type 0
Attempt A = List Event × Option String × Turn A

-- How the loop ends. It may be left without a reply.
pub data Outcome (A : Type 0) : Type 0 where
  returned : A → Outcome A
  raised : Raised → Outcome A
  fell_through : Outcome A

pub record Run (A : Type 0) : Type 0 where
  pub events : List Event
  pub jwt : Option String
  pub outcome : Outcome A

-- `attempt == _RETRIES`, by the number of attempts that are left.
abbrev pub is_last : ℕ → Bool
is_last zero = true
is_last (suc left) = false

module _ {A : Type 0} where
  unfoldable pub on_answer : Answer A → Turn A
  on_answer (clean a) = returns a
  on_answer (already_there a) = returns a
  on_answer (errors a) = raises runtime_error

  -- The end of an attempt, with the token that is kept: a 401 drops it.
  unfoldable pub after_post : String → Response (Answer A) → Option String × Turn A
  after_post token (refused code) =
      if code == 401
      then (none, again (http_status code))
      else (some token, on_status is_final_graphql code)
  after_post token broken = (some token, later transport)
  after_post token garbled = (some token, raises value_error)
  after_post token (answered answer) = (some token, on_answer answer)

  unfoldable pub post_with : String → Response (Answer A) → Attempt A
  post_with token response =
      let (jwt, turn) = after_post token response in (posted token ∷ [], jwt, turn)

  -- `_login`, whose exceptions are handled like those of the request.
  unfoldable pub login_then : (String → Response (Answer A)) → Response String → Attempt A
  login_then post (refused code) = (logged_in ∷ [], none, on_status is_final_graphql code)
  login_then post broken = (logged_in ∷ [], none, later transport)
  login_then post garbled = (logged_in ∷ [], none, raises value_error)
  login_then post (answered token) =
      let (events, jwt, turn) = post_with token (post token) in (logged_in ∷ events, jwt, turn)

  unfoldable pub graphql_attempt :
      Response String → (String → Response (Answer A)) → Option String → Attempt A
  graphql_attempt login post none = login_then post login
  graphql_attempt login post (some token) = post_with token (post token)

  -- The callers of `_proxy_request` read the answer as JSON at once.
  unfoldable pub on_response : Response A → Turn A
  on_response (refused code) = on_status is_final_proxy code
  on_response broken = later transport
  on_response garbled = raises value_error
  on_response (answered a) = returns a

  unfoldable pub proxy_attempt : Response A → Option String → Attempt A
  proxy_attempt response jwt = (requested ∷ [], jwt, on_response response)

  unfoldable pub before : List Event → Run A → Run A
  before events r = record r { events = events ++ r.events }

  -- The end of a turn; `rest` is what the attempts that are left do with the token.
  unfoldable pub after_turn : Bool → List Event → Option String → Turn A → Run A → Run A
  after_turn last events jwt (returns a) rest = record {
    events = events;
    jwt = jwt;
    outcome = returned a;
  }
  after_turn last events jwt (raises e) rest = record {
    events = events;
    jwt = jwt;
    outcome = raised e;
  }
  after_turn last events jwt (later e) rest =
      if last
      then record { events = events; jwt = jwt; outcome = raised e }
      else before (events ++ slept ∷ []) rest
  after_turn last events jwt (again e) rest =
      if last then record { events = events; jwt = jwt; outcome = raised e } else before events rest

  -- The loop, from attempt number `k` on, with `left` attempts.
  unfoldable pub retry : (ℕ → Option String → Attempt A) → ℕ → ℕ → Option String → Run A
  retry attempt k zero jwt = record { events = []; jwt = jwt; outcome = fell_through }
  retry attempt k (suc left) jwt =
      let (events, kept, turn) = attempt k jwt in
      after_turn (is_last left) events kept turn (retry attempt (k + 1) left kept)

  unfoldable pub graphql :
      (ℕ → Response String) → (ℕ → String → Response (Answer A)) → Option String → Run A
  graphql login post jwt = retry (λ k. graphql_attempt (login k) (post k)) 1 3 jwt

  unfoldable pub proxy_request : (ℕ → Response A) → Option String → Run A
  proxy_request respond jwt = retry (λ k. proxy_attempt (respond k)) 1 3 jwt
