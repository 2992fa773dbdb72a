-- ===== src/Audit.antt =====
-- The audit middleware (monitor/app/audit.py): the redaction of request bodies (`_sanitise`) and the event
-- of each mutating request that succeeds (`AuditMiddleware.dispatch`).
pub mod Redaction
mod Tests
use fast_tak.Base.{
  ℕ, String, ◌≡◌, Bool, true, false, not, ◌&&◌, ◌||◌, Option, none, some, List, [], ◌∷◌, ltb, leb,
  is_some, contains, string_eq, ◌==◌, if◌then◌else◌,
}
use fast_tak.Base.Python.{Python, Scalar, string}
use fast_tak.Base.Text.{codes, strip_prefix}

-- A value of JSON, with the members of its objects in order.
mutual
  pub data Json (N : Type 0) : Type 0 where
    leaf : Scalar N → Json N
    array : Items N → Json N
    object : Members N → Json N

  pub data Items (N : Type 0) : Type 0 where
    no_items : Items N
    item : Json N → Items N → Items N

  pub data Members (N : Type 0) : Type 0 where
    no_members : Members N
    member : String → Json N → Members N → Members N

abbrev pub redact_fields : List String
redact_fields =
    "password" ∷ "passcode" ∷ "token" ∷ "secret" ∷ "api_key" ∷ "p12" ∷ "private_key" ∷ []

-- `part in text`
unfoldable pub occurs : List ℕ → List ℕ → Bool
occurs part [] = is_some (strip_prefix part [])
occurs part (x ∷ xs) = let later = occurs part xs in is_some (strip_prefix part (x ∷ xs)) || later

unfoldable pub any_occurs : List String → List ℕ → Bool
any_occurs [] key = false
any_occurs (s ∷ rest) key = let later = any_occurs rest key in occurs (codes s) key || later

module _ (py : Python) where
  open py use {Num, lower}

  -- `any(s in k.lower() for s in REDACT_FIELDS)`
  unfoldable pub is_secret : String → Bool
  is_secret key = any_occurs redact_fields (codes (lower key))

  abbrev pub redacted : Json Num
  redacted = leaf (string "[redacted]")

  unfoldable mutual
    pub sanitise : Json Num → Json Num
    sanitise (leaf s) = leaf s
    sanitise (array items) = array (sanitise_items items)
    sanitise (object members) = object (sanitise_members members)

    pub sanitise_items : Items Num → Items Num
    sanitise_items no_items = no_items
    sanitise_items (item j rest) = item (sanitise j) (sanitise_items rest)

    pub sanitise_members : Members Num → Members Num
    sanitise_members no_members = no_members
    sanitise_members (member key j rest) =
        let clean = sanitise j in
        let others = sanitise_members rest in
        member key (if is_secret key then redacted else clean) others

  -- The body of a request: none, a text that is no JSON, or a value.
  pub data Body : Type 0 where
    no_body no_json : Body
    json : Json Num → Body

  pub record Event : Type 0 where
    pub actor : String
    pub method : String
    pub path : String
    pub status : ℕ
    pub request_body : Option (Json Num)

  abbrev pub body_of : Body → Option (Json Num)
  body_of no_body = none
  body_of no_json = some (leaf (string "<non-json or binary>"))
  body_of (json j) = some (sanitise j)

  abbrev pub is_mutating : String → Bool
  is_mutating method = contains ("POST" ∷ "PUT" ∷ "PATCH" ∷ "DELETE" ∷ []) method

  -- The events of one request, which the application answers with `status`.
  unfoldable pub dispatch : String → String → String → Body → ℕ → List Event
  dispatch actor method path body status =
      if not (is_mutating method)
      then []
      else if leb 400 status
      then []
      else record {
        actor = actor;
        method = method;
        path = path;
        status = status;
        request_body = body_of body;
      }
        ∷ []
