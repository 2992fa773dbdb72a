-- ===== src/Users/Tests/Identity.antt =====
-- The theorems about the identity client and its listings at concrete users.
use fast_tak.Base.{
  ℕ, String, ◌≡◌, ◌≢◌, refl, true, false, none, some, List, [], ◌∷◌, ◌==◌, nat_eq, string_eq, arith,
  In, here, there, ap, sym, ◌∙◌, inl, inr, All, if◌then◌else◌,
}
use fast_tak.Base.Int.{ℤ, pos, negsuc}
use fast_tak.Base.Dict.{Dict, lookup, lookup-nil}
use fast_tak.Base.Result.{ok}
use fast_tak.Base.Text.{codes, codes_eq}
use fast_tak.Base.Unary.{
  unary, count, count-strokes, fold_case_True, fold_case_False, fold_case_idempotent,
}
use fast_tak.Users.Attributes.{Group, LdapUser, is_active, is_pending}
use fast_tak.Users.Attributes.Laws.{IsReadable, HasDistinctKeys}
use fast_tak.Users.Update.{Changes, update_user}
use fast_tak.Users.Update.Meaning.{given, pending_after, update_user_meaning}
use fast_tak.Users.Retries.{
  Response, refused, answered, Answer, clean, graphql, retry, graphql_attempt, login_then,
  post_with, after_post, on_answer, after_turn, before, posted, logged_in, returned,
}
use fast_tak.Users.Retries.Ends.{IsBounded, graphql-IsBounded}
use fast_tak.Users.Directory.{get_user, username_to_numeric_id, from_bytes}
use fast_tak.Users.Directory.Ids.{IsIdMap}
use fast_tak.Users.Directory.Finding.{IsKnown, AreDistinguished, user_of_id, shown, get_user_finds}
use fast_tak.Users.Listing.{DiskCert, TakCert, hash_of, list_user_certs}
use fast_tak.Users.Listing.Pages.{first_pages, first_pages_cover}
use fast_tak.Users.Listing.Merge.{IsOnDisk, IsListed, list_user_certs_complete}
use fast_tak.Users.Router.{missing_groups}
use fast_tak.Users.Groups.{is_tak, add_user_to_group, set_user_groups}
use fast_tak.Users.GroupList.{list_groups}
use fast_tak.Users.GroupList.Roles.{names, groups_and_role_admin}

readable : IsReadable unary count
readable = record {
  read_int-show = count-strokes;
  lower-True = fold_case_True;
  lower-False = fold_case_False;
  lower_idempotent = fold_case_idempotent;
}

-- A deactivated user whose certificates were revoked.
abbrev gone : LdapUser
gone = record {
  id = "ann";
  display_name = "Ann";
  attributes =
      ("fastak_expires", "||||" ∷ [])
      ∷ ("fastak_certs_revoked", "true" ∷ [])
      ∷ ("is_active", "false" ∷ [])
      ∷ [];
  groups = [];
}

gone_distinct : HasDistinctKeys gone.attributes
unfolding string_eq
gone_distinct = (refl, (refl, (refl, tt)))

-- Integers as the numbers of the tests, none of them negative.
abbrev of_int : ℤ → ℕ
of_int (pos n) = n
of_int (negsuc n) = 0

abbrev reactivation : Changes
reactivation = record { name = none; is_active = some true; ttl_hours = none }

update_user_meaning_example :
    (is_active unary count (update_user unary count of_int 1000 reactivation gone).attributes
      ≡ given unary count readable of_int 1000 (some true) (is_active unary count gone.attributes))
    × (is_pending unary count 9 (update_user unary count of_int 1000 reactivation gone).attributes
        ≡ pending_after unary count readable of_int 1000 9 (some true) none gone.attributes)
update_user_meaning_example =
    update_user_meaning unary count readable of_int 1000 9 reactivation gone gone_distinct

-- The kept token is refused, and the next attempt logs in.
abbrev login : ℕ → Response String
login k = answered "new"

abbrev post : ℕ → String → Response (Answer ℕ)
post k token = if token == "new" then answered (clean 7) else refused 401

graphql-IsBounded_example : IsBounded 3 (graphql login post (some "old"))
graphql-IsBounded_example = graphql-IsBounded login post (some "old")

logs_in_again : graphql login post (some "old") ≡ record {
  events = posted "old" ∷ logged_in ∷ posted "new" ∷ [];
  jwt = some "new";
  outcome = returned 7;
}
unfolding graphql retry graphql_attempt login_then post_with after_post on_answer after_turn before
    string_eq nat_eq
logs_in_again = refl

abbrev bob : LdapUser
bob = record { id = "bob"; display_name = "Bob"; attributes = []; groups = [] }

abbrev users : List LdapUser
users = gone ∷ bob ∷ []

-- A digest that gives each of the two names a number.
abbrev digest : String → List ℕ
digest name = 0 ∷ 0 ∷ 0 ∷ 0 ∷ 0 ∷ 0 ∷ (if name == "ann" then 1 else 2) ∷ 77 ∷ []

users_distinguished : AreDistinguished (IsKnown users []) (username_to_numeric_id digest) users
users_distinguished = (only_ann, (only_bob, tt))
  where
    apart : username_to_numeric_id digest "ann" ≢ username_to_numeric_id digest "bob"
    apart e = absurd (unfold username_to_numeric_id from_bytes string_eq in cc)

    only_ann :
        (name : String)
        → IsKnown users [] name
        → username_to_numeric_id digest name ≡ username_to_numeric_id digest "ann"
        → name ≡ "ann"
    only_ann name (inl (u, here p, q)) e = sym q ∙ ap (λ (w : LdapUser). w.id) p
    only_ann name (inl (u, there (here p), q)) e =
        let bobs : name ≡ "bob" = sym q ∙ ap (λ (w : LdapUser). w.id) p in
        absurd (apart (sym e ∙ ap (username_to_numeric_id digest) bobs))
    only_ann name (inl (u, there (there i), q)) e = elim i [ ]
    only_ann name (inr (id, found)) e = absurd (ground (arith, found, lookup-nil {V = String} id))

    only_bob :
        (name : String)
        → IsKnown users [] name
        → username_to_numeric_id digest name ≡ username_to_numeric_id digest "bob"
        → name ≡ "bob"
    only_bob name (inl (u, here p, q)) e =
        let anns : name ≡ "ann" = sym q ∙ ap (λ (w : LdapUser). w.id) p in
        absurd (apart (ap (username_to_numeric_id digest) (sym anns) ∙ e))
    only_bob name (inl (u, there (here p), q)) e = sym q ∙ ap (λ (w : LdapUser). w.id) p
    only_bob name (inl (u, there (there i), q)) e = elim i [ ]
    only_bob name (inr (id, found)) e = absurd (ground (arith, found, lookup-nil {V = String} id))

empty-IsIdMap : IsIdMap (username_to_numeric_id digest) []
empty-IsIdMap id name e = absurd (ground (arith, e, lookup-nil {V = String} id))

get_user_finds_example :
    (get_user unary count (username_to_numeric_id digest) ("svc_" ∷ []) 2 users []).1
    ≡ ok (
        shown unary count
          (username_to_numeric_id digest)
          ("svc_" ∷ [])
          (user_of_id unary count (username_to_numeric_id digest) 2 users))
get_user_finds_example =
    get_user_finds unary count digest ("svc_" ∷ []) 2 users [] empty-IsIdMap users_distinguished

abbrev three : List ℕ
three = 10 ∷ 20 ∷ 30 ∷ []

two_pages : first_pages 2 2 three ≡ three
two_pages = first_pages_cover 2 2 three (omega arith)

abbrev files : List DiskCert
files =
    record {
      cert_name = codes "phone";
      pem =
          some
            (record { serial = some (codes "0a"); expiry = none; fingerprint = some (codes "ff") });
    }
    ∷ []

abbrev certs : List TakCert
certs =
    record { id = 4; hash = some (codes "f:f"); revocation_date = none; expiration_date = none }
    ∷ record { id = 5; hash = some (codes "e:e"); revocation_date = none; expiration_date = none }
    ∷ []

list_user_certs_complete_example :
    ((f : DiskCert)
      → In f files
      → IsOnDisk
          (λ s. s)
          (codes "0a" ∷ [])
          f
          (list_user_certs (λ s. s) (codes "0a" ∷ []) files certs))
    × ((c : TakCert)
        → In c certs
        → hash_of (λ s. s) c ≢ []
        → IsListed
            (λ s. s)
            (hash_of (λ s. s) c)
            (list_user_certs (λ s. s) (codes "0a" ∷ []) files certs))
list_user_certs_complete_example = list_user_certs_complete (λ s. s) (codes "0a" ∷ []) files certs

abbrev ldap_groups : List Group
ldap_groups =
    record { group_id = 1; group_name = "tak_ops" }
    ∷ record { group_id = 2; group_name = "tak_ROLE_ADMIN" }
    ∷ record { group_id = 3; group_name = "tak_tak_ROLE_ADMIN" }
    ∷ []

abbrev nobody : Dict String ℕ
nobody = []

abbrev ids_by_name : Dict String ℕ
ids_by_name = ("tak_ops", 1) ∷ ("tak_ROLE_ADMIN", 2) ∷ ("tak_tak_ROLE_ADMIN", 3) ∷ []

groups_and_role_admin_example :
    ((wanted : List String)
      → All (λ n. is_tak n ≡ false) wanted
      → missing_groups wanted (names (list_groups ldap_groups)) ≡ []
      → ((name : String) → lookup name ids_by_name ≡ some 2 → name ≡ "tak_ROLE_ADMIN")
      → ¬ In (add_user_to_group 2) (set_user_groups wanted nobody ids_by_name))
    × ((id : ℕ)
        → In (record { group_id = id; group_name = "tak_tak_ROLE_ADMIN" }) ldap_groups
        → lookup "tak_ROLE_ADMIN" ids_by_name ≡ some 2
        → lookup "tak_ROLE_ADMIN" nobody ≡ none
        → (missing_groups ("tak_ROLE_ADMIN" ∷ []) (names (list_groups ldap_groups)) ≡ [])
          × In (add_user_to_group 2) (set_user_groups ("tak_ROLE_ADMIN" ∷ []) nobody ids_by_name))
groups_and_role_admin_example = groups_and_role_admin ldap_groups nobody ids_by_name 2
