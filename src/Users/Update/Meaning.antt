-- ===== src/Users/Update/Meaning.antt =====
-- What an update of a user means for its access and its expiry.
use fast_tak.Base.Int.{ℤ}
use fast_tak.Base.{
  ℕ, String, ◌≡◌, refl, ap, ◌∙◌, Bool, true, false, Option, none, some, [], ◌∷◌, ◌++◌, string_eq,
  arith, All, inl, inr,
}
use fast_tak.Base.Dict.{lookup, insert, lookup-nil}
use fast_tak.Base.Python.{Python}
use fast_tak.Users.Attributes.{
  Value, cleared, flag, number, Attrs, Stored, LdapUser, parse_attributes, parse_onto,
  build_custom_attributes, is_pending, is_active, is_expired,
}
use fast_tak.Users.Attributes.Laws.{IsReadable, HasDistinctKeys}
use fast_tak.Users.Attributes.Parsed.{All-parse_onto, distinct-parse_onto, lookup-parsed}
use fast_tak.Users.Attributes.Updates.{IsTyped, after_update, lookup-parse_attributes_sent}
use fast_tak.Users.Update.{
  Changes, expiry_by, Merge, active_update, unless_there, ttl_update, attrs_update, merge_all,
  sent_attributes, apply_attributes, apply_name, update_user,
}
use fast_tak.Users.Update.Entries.{or_else, cleared_of, as_attrs, AreDistinct, build-as_attrs}
use fast_tak.Users.Update.Merged.{IsMerge, merge_all_lem, as_attrs-IsSendable}

module _ (py : Python) (read_int : String → Option py.Num) (law : IsReadable py read_int) where
  open py use {Num}

  abbrev start : Stored → Merge Num
  start attrs = record { existing = parse_attributes py read_int attrs; clears = [] }

  start-IsMerge : (attrs : Stored) → IsMerge py read_int (start attrs)
  unfolding parse_attributes
  start-IsMerge attrs = record {
    parsed = All-parse_onto py read_int [] attrs tt;
    distinct_existing =
        distinct-parse_onto py read_int [] attrs (unfold build_custom_attributes in tt);
    distinct_clears = unfold build_custom_attributes in tt;
    apart = λ name i. absurd (ground (arith, i, lookup-nil {V = Value Num} name));
  }

  All-start : (update : Attrs Num) → All (λ e. lookup e.0 (cleared_of py read_int []) ≡ none) update
  All-start [] = tt
  All-start (e ∷ update) = (lookup-nil {V = Value Num} e.0, All-start update)

  append_nil : (d : Attrs Num) → d ++ [] ≡ d
  append_nil [] = refl
  append_nil (e ∷ d) = ap (λ (x : Attrs Num). e ∷ x) (append_nil d)

  abbrev read : String → Stored → Option (Value Num)
  read name attrs = lookup name (parse_attributes py read_int attrs)

  abbrev after : Attrs Num → LdapUser → LdapUser
  after update u = apply_attributes py read_int (sent_attributes py read_int update u.attributes) u

  kept :
      (name : String) (attrs : Stored) (o : Option (Value Num))
      → o ≡ read name attrs
      → after_update o (read name attrs) ≡ read name attrs
  unfolding parse_attributes
  kept name attrs none e = refl
  kept name attrs (some v) e = ground (
    arith,
    e,
    lookup-parsed py read_int name v (parse_onto py read_int [] attrs)
        (All-parse_onto py read_int [] attrs tt),
  )

  either :
      (name : String) (attrs : Stored) (o : Option (Value Num)) {p : Option (Value Num)}
      → p ≡ read name attrs
      → after_update (or_else o p) (read name attrs) ≡ after_update o (read name attrs)
  either name attrs (some v) {p} e = refl
  either name attrs none {p} e = kept name attrs p e

  -- An attribute that the update names is read with its value, and every other one as before.
  read-after :
      (name : String) (update : Attrs Num) (u : LdapUser)
      → HasDistinctKeys u.attributes
      → AreDistinct py read_int update
      → All (λ e. IsTyped e.0 e.1) update
      → read name (after update u).attributes
        ≡ after_update (lookup name update) (read name u.attributes)
  unfolding apply_attributes sent_attributes
  read-after name [] u distinct apart typed = rw (lookup-nil {V = Value Num} name) refl
  read-after name (e ∷ update) u distinct apart typed =
      let m = merge_all py read_int (e ∷ update) (start u.attributes) in
      let (good, reads) =
        merge_all_lem py read_int (e ∷ update) (start u.attributes) (start-IsMerge u.attributes)
          (apart, All-start (e ∷ update), typed) in
      let (sendable, kinds) = as_attrs-IsSendable py read_int m good in
      let sent =
        lookup-parse_attributes_sent py read_int law name (as_attrs py read_int m) u.attributes
          sendable distinct kinds in
      rw (← build-as_attrs py read_int m) (
        sent
        ∙ (ap (λ o. after_update o (read name u.attributes)) (reads name)
            ∙ either name u.attributes (lookup name (e ∷ update))
                (ap (λ d. lookup name d) (append_nil (parse_attributes py read_int u.attributes)))))

  -- The entries of an update that the arguments give.
  abbrev AreEntries : Attrs Num → Type 0
  AreEntries update = AreDistinct py read_int update × All (λ e. IsTyped e.0 e.1) update

  attrs_update-AreEntries :
      (expires_at : ℤ → Num) (active : Option Bool) (ttl : Option (Option ℤ))
      → AreEntries (ttl_update py read_int expires_at ttl (active_update py read_int active))
  unfolding ttl_update active_update unless_there insert lookup string_eq build_custom_attributes
  attrs_update-AreEntries expires_at none none = (tt, tt)
  attrs_update-AreEntries expires_at none (some none) = ((refl, (refl, tt)), (tt, (tt, tt)))
  attrs_update-AreEntries expires_at none (some (some h)) =
      ((refl, (refl, tt)), (refl, (inl refl, tt)))
  attrs_update-AreEntries expires_at (some true) none =
      ((refl, (refl, tt)), (inr refl, (inl refl, tt)))
  attrs_update-AreEntries expires_at (some true) (some none) =
      ((refl, (refl, (refl, tt))), (inr refl, (tt, (tt, tt))))
  attrs_update-AreEntries expires_at (some true) (some (some h)) =
      ((refl, (refl, (refl, tt))), (inr refl, (inl refl, (refl, tt))))
  attrs_update-AreEntries expires_at (some false) none = ((refl, tt), (inr refl, tt))
  attrs_update-AreEntries expires_at (some false) (some none) =
      ((refl, (refl, (refl, tt))), (inr refl, (tt, (tt, tt))))
  attrs_update-AreEntries expires_at (some false) (some (some h)) =
      ((refl, (refl, (refl, tt))), (inr refl, (refl, (inl refl, tt))))

  module _ (of_int : ℤ → Num) (time : ℕ) where
    abbrev active_sent : Option Bool → Option (Value Num)
    active_sent none = none
    active_sent (some b) = some (flag b)

    abbrev expires_sent : Option (Option ℤ) → Option (Value Num)
    expires_sent none = none
    expires_sent (some none) = some cleared
    expires_sent (some (some hours)) = some (number (expiry_by of_int time hours))

    abbrev revoked_sent : Option Bool → Option (Option ℤ) → Option (Value Num)
    revoked_sent none none = none
    revoked_sent (some true) none = some (flag false)
    revoked_sent (some false) none = none
    revoked_sent active (some none) = some cleared
    revoked_sent active (some (some hours)) = some (flag false)

    lookup-attrs_update :
        (active : Option Bool) (ttl : Option (Option ℤ))
        → (lookup "is_active" (
              ttl_update py read_int (expiry_by of_int time) ttl (active_update py read_int active))
            ≡ active_sent active)
          × (lookup "fastak_expires" (
                ttl_update py read_int
                  (expiry_by of_int time)
                  ttl
                  (active_update py read_int active))
              ≡ expires_sent ttl)
          × (lookup "fastak_certs_revoked" (
                ttl_update py read_int
                  (expiry_by of_int time)
                  ttl
                  (active_update py read_int active))
              ≡ revoked_sent active ttl)
    unfolding ttl_update active_update unless_there insert lookup string_eq
    lookup-attrs_update none none = (refl, refl, refl)
    lookup-attrs_update none (some none) = (refl, refl, refl)
    lookup-attrs_update none (some (some h)) = (refl, refl, refl)
    lookup-attrs_update (some true) none = (refl, refl, refl)
    lookup-attrs_update (some true) (some none) = (refl, refl, refl)
    lookup-attrs_update (some true) (some (some h)) = (refl, refl, refl)
    lookup-attrs_update (some false) none = (refl, refl, refl)
    lookup-attrs_update (some false) (some none) = (refl, refl, refl)
    lookup-attrs_update (some false) (some (some h)) = (refl, refl, refl)

    -- Whether the expiry takes up the user: by a new time, never if the time was cleared, and anew if
    -- the user was reactivated with a time that is over.
    abbrev pub pending_after : Num → Option Bool → Option (Option ℤ) → Stored → Bool
    pending_after now active (some (some hours)) attrs = py.leb (expiry_by of_int time hours) now
    pending_after now active (some none) attrs = false
    pending_after now none none attrs = is_pending py read_int now attrs
    pending_after now (some false) none attrs = is_pending py read_int now attrs
    pending_after now (some true) none attrs =
        is_expired py read_int now (lookup "fastak_expires" (parse_attributes py read_int attrs))

    abbrev pub given {ℓ} : {A : Type ℓ} → Option A → A → A
    given none before = before
    given (some a) before = a

    active_after :
        (active : Option Bool) (before after_ : Stored)
        → lookup "is_active" (parse_attributes py read_int after_)
          ≡ after_update
              (active_sent active)
              (lookup "is_active" (parse_attributes py read_int before))
        → is_active py read_int after_ ≡ given active (is_active py read_int before)
    unfolding is_active
    active_after none before after_ h = ground (arith, h)
    active_after (some b) before after_ h = ground (arith, h)

    expired_after :
        (now : Num) (active : Option Bool) (ttl : Option (Option ℤ)) (before after_ : Stored)
        → lookup "fastak_expires" (parse_attributes py read_int after_)
          ≡ after_update
              (expires_sent ttl)
              (lookup "fastak_expires" (parse_attributes py read_int before))
        → lookup "fastak_certs_revoked" (parse_attributes py read_int after_)
          ≡ after_update
              (revoked_sent active ttl)
              (lookup "fastak_certs_revoked" (parse_attributes py read_int before))
        → is_pending py read_int now after_ ≡ pending_after now active ttl before
    unfolding is_pending is_expired
    expired_after now none none before after_ h k = rw (h, k) refl
    expired_after now none (some none) before after_ h k = rw (h, k) refl
    expired_after now none (some (some hours)) before after_ h k = rw (h, k) refl
    expired_after now (some true) none before after_ h k = rw (h, k) refl
    expired_after now (some true) (some none) before after_ h k = rw (h, k) refl
    expired_after now (some true) (some (some hours)) before after_ h k = rw (h, k) refl
    expired_after now (some false) none before after_ h k = rw (h, k) refl
    expired_after now (some false) (some none) before after_ h k = rw (h, k) refl
    expired_after now (some false) (some (some hours)) before after_ h k = rw (h, k) refl

    attributes-apply_name :
        (sent : Option Stored) (name : Option String) (u : LdapUser)
        → (apply_attributes py read_int sent (apply_name py read_int name u)).attributes
          ≡ (apply_attributes py read_int sent u).attributes
    unfolding apply_name apply_attributes
    attributes-apply_name sent none u = refl
    attributes-apply_name none (some n) u = refl
    attributes-apply_name (some s) (some n) u = refl

    pub update_user_meaning :
        (now : Num) (c : Changes) (u : LdapUser)
        → HasDistinctKeys u.attributes
        → (is_active py read_int (update_user py read_int of_int time c u).attributes
            ≡ given c.is_active (is_active py read_int u.attributes))
          × (is_pending py read_int now (update_user py read_int of_int time c u).attributes
              ≡ pending_after now c.is_active c.ttl_hours u.attributes)
    unfolding update_user attrs_update
    update_user_meaning now c u distinct =
        let update =
          ttl_update py read_int (expiry_by of_int time) c.ttl_hours
            (active_update py read_int c.is_active) in
        let (apart, typed) =
          attrs_update-AreEntries (expiry_by of_int time) c.is_active c.ttl_hours in
        let (on_active, on_expires, on_revoked) = lookup-attrs_update c.is_active c.ttl_hours in
        let same =
          attributes-apply_name (sent_attributes py read_int update u.attributes) c.name u in
        let reads = λ (name : String). read-after name update u distinct apart typed in
        rw same (
          active_after c.is_active u.attributes (after update u).attributes (
              reads "is_active"
              ∙ ap (λ o. after_update o (read "is_active" u.attributes)) on_active),
          expired_after now c.is_active c.ttl_hours u.attributes (after update u).attributes
              (reads "fastak_expires"
                ∙ ap (λ o. after_update o (read "fastak_expires" u.attributes)) on_expires)
              (reads "fastak_certs_revoked"
                ∙ ap (λ o. after_update o (read "fastak_certs_revoked" u.attributes)) on_revoked),
        )
