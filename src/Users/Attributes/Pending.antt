-- ===== src/Users/Attributes/Pending.antt =====
-- The two updates of a user whose time is up: `deactivate_user` and `mark_certs_revoked`.
use fast_tak.Base.{
  String, ◌≡◌, refl, true, false, Option, some, [], ◌==◌, string_eq, if◌then◌else◌, arith,
  Option-cases, inl, inr,
}
use fast_tak.Base.Dict.{lookup, insert, lookup-nil, lookup-cons, lookup-insert}
use fast_tak.Base.Python.{Python}
use fast_tak.Users.Attributes.{
  Value, flag, Stored, parse_onto, parse_attributes, build_custom_attributes, insert_attributes,
  deactivation, revocation, is_pending, is_active,
}
use fast_tak.Users.Attributes.Laws.{IsReadable, HasDistinctKeys}
use fast_tak.Users.Attributes.Parsed.{
  IsParsed, All-insert, All-parse_onto, distinct-insert, distinct-parse_onto, All-IsTyped,
  lookup-parsed,
}
use fast_tak.Users.Attributes.Updates.{lookup-parse_attributes_sent, names-Differ}

module _ (py : Python) (read_int : String → Option py.Num) where
  open py use {Num}

  module _ (law : IsReadable py read_int) where
    -- After `mark_certs_revoked`, every attribute is read as before, except the mark.
    read-revocation :
        (name : String) (attrs : Stored)
        → HasDistinctKeys attrs
        → lookup name (
            parse_attributes py read_int (
              insert_attributes
                (build_custom_attributes py read_int (revocation py read_int attrs))
                attrs))
          ≡ (if name == "fastak_certs_revoked"
              then some (flag true)
              else lookup name (parse_attributes py read_int attrs))
    unfolding revocation parse_attributes
    read-revocation name attrs distinct =
        let parsed = parse_onto py read_int [] attrs in
        let all = All-parse_onto py read_int [] attrs tt in
        let marked = insert "fastak_certs_revoked" (flag true) parsed in
        let own : IsParsed py read_int ("fastak_certs_revoked", flag true) = (inl refl, refl) in
        let sent =
          lookup-parse_attributes_sent py read_int law name marked attrs
            (distinct-insert py read_int "fastak_certs_revoked" (flag true) parsed
              (distinct-parse_onto py read_int [] attrs (unfold build_custom_attributes in tt)))
            distinct
            (All-IsTyped py read_int marked
              (All-insert py read_int "fastak_certs_revoked" (flag true) parsed own all)) in
        elim (Option-cases (lookup name parsed)) [
          | inl absent ↦
              ground
                (arith, sent, absent, lookup-insert name "fastak_certs_revoked" (flag true) parsed)
          | inr (v, found) ↦ ground (
            arith,
            sent,
            found,
            lookup-parsed py read_int name v parsed all found,
            lookup-insert name "fastak_certs_revoked" (flag true) parsed,
          )
        ]

    -- After `deactivate_user`, every attribute is read as before, except `is_active`.
    read-deactivation :
        (name : String) (attrs : Stored)
        → HasDistinctKeys attrs
        → lookup name (
            parse_attributes py read_int (
              insert_attributes
                (build_custom_attributes py read_int (deactivation py read_int))
                attrs))
          ≡ (if name == "is_active"
              then some (flag false)
              else lookup name (parse_attributes py read_int attrs))
    read-deactivation name attrs distinct = ground (
      arith,
      lookup-parse_attributes_sent py read_int law name (deactivation py read_int) attrs
          (unfold build_custom_attributes in (refl, tt)) distinct (inr refl, tt),
      lookup-cons {V = Value Num} name "is_active" (flag false) [],
      lookup-nil {V = Value Num} name,
    )

    -- A user whom `deactivate_user` has updated is no longer active, and is pending exactly when it was: the
    -- expiry goes on to revoke its certificates. A user whom `mark_certs_revoked` has updated is pending no more, and
    -- is active exactly when it was. Both hold for attributes that LLDAP keeps under distinct names.
    pub expiry_updates :
        (now : Num) (attrs : Stored)
        → HasDistinctKeys attrs
        → (is_active py read_int (
              insert_attributes
                (build_custom_attributes py read_int (deactivation py read_int))
                attrs)
            ≡ false)
          × (is_pending py read_int now (
                insert_attributes
                  (build_custom_attributes py read_int (deactivation py read_int))
                  attrs)
              ≡ is_pending py read_int now attrs)
          × (is_pending py read_int now (
                insert_attributes
                  (build_custom_attributes py read_int (revocation py read_int attrs))
                  attrs)
              ≡ false)
          × (is_active py read_int (
                insert_attributes
                  (build_custom_attributes py read_int (revocation py read_int attrs))
                  attrs)
              ≡ is_active py read_int attrs)
    unfolding is_active is_pending
    expiry_updates now attrs distinct = (
      ground (arith, read-deactivation "is_active" attrs distinct),
      ground (
        arith,
        names-Differ,
        read-deactivation "fastak_certs_revoked" attrs distinct,
        read-deactivation "fastak_expires" attrs distinct,
      ),
      ground (arith, read-revocation "fastak_certs_revoked" attrs distinct),
      ground (arith, names-Differ, read-revocation "is_active" attrs distinct),
    )
