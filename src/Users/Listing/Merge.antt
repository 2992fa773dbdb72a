-- ===== src/Users/Listing/Merge.antt =====
-- The merged list loses no certificate.
use fast_tak.Base.{
  ◌≡◌, ◌≢◌, refl, ap, sym, ◌∙◌, Bool, true, false, not, ◌&&◌, Option, none, some, List, [], ◌∷◌,
  ◌++◌, ◌==◌, nat_eq, arith, contains, if◌then◌else◌, In, here, there, Bool-cases, Option-cases,
  inl, inr,
}
use fast_tak.Base.Dict.{Dict, lookup, insert, lookup-insert, lookup-nil}
use fast_tak.Base.Text.{codes_eq}
use fast_tak.Users.Listing.{
  Chars, Pem, DiskCert, TakCert, Entry, text_or_nil, hash_of, by_hash_onto, by_hash, is_revoked,
  match_of, disk_entry, add_hash, merge_disk, tak_entry, add_unmatched, list_user_certs,
}

module _ {ℓ} {A : Type ℓ} where
  In-left : {x : A} {xs : List A} (ys : List A) → In x xs → In x (xs ++ ys)
  In-left ys (here e) = here e
  In-left ys (there i) = there (In-left ys i)

  In-right : {x : A} (xs : List A) {ys : List A} → In x ys → In x (xs ++ ys)
  In-right [] i = i
  In-right (x ∷ xs) i = there (In-right xs i)

module _ (lower : Chars → Chars) where
  -- The list has an entry of certadmin for this hash: one with the id of a certificate that has it.
  abbrev pub IsListed : Chars → List Entry → Type 0
  IsListed h entries =
      (c : TakCert) × (hash_of lower c ≡ h) × (e : Entry) × (e.cert_id ≡ some c.id) × In e entries

  abbrev AreKeyed : Dict Chars TakCert → Type 0
  AreKeyed d = (h : Chars) (c : TakCert) → lookup h d ≡ some c → hash_of lower c ≡ h

  insert-AreKeyed :
      (c : TakCert) (d : Dict Chars TakCert) → AreKeyed d → AreKeyed (insert (hash_of lower c) c d)
  insert-AreKeyed c d keyed h k e = elim (codes_eq.dec h (hash_of lower c)) [
    | yes same ↦
        let same_cert : c ≡ k = ground (arith, same, e, lookup-insert h (hash_of lower c) c d) in
        ap (hash_of lower) (sym same_cert) ∙ sym same
    | no differ ↦ keyed h k (ground (arith, differ, e, lookup-insert h (hash_of lower c) c d))
  ]

  by_hash_onto-AreKeyed :
      (certs : List TakCert) (d : Dict Chars TakCert)
      → AreKeyed d
      → AreKeyed (by_hash_onto lower d certs)
  unfolding by_hash_onto
  by_hash_onto-AreKeyed [] d keyed = keyed
  by_hash_onto-AreKeyed (c ∷ certs) d keyed =
      by_hash_onto-AreKeyed certs
        (if text_or_nil c.hash == [] then d else insert (hash_of lower c) c d)
        (by_text (text_or_nil c.hash == []))
    where
      by_text : (b : Bool) → AreKeyed (if b then d else insert (hash_of lower c) c d)
      by_text true = keyed
      by_text false = insert-AreKeyed c d keyed

  by_hash-AreKeyed : (certs : List TakCert) → AreKeyed (by_hash lower certs)
  unfolding by_hash
  by_hash-AreKeyed certs =
      by_hash_onto-AreKeyed certs []
        (λ h c e. absurd (ground (arith, e, lookup-nil {V = TakCert} h)))

  match_of-hash :
      (d : Dict Chars TakCert) (p : Option Pem) (h : Chars) (c : TakCert)
      → AreKeyed d
      → match_of lower d p ≡ some (h, c)
      → hash_of lower c ≡ h
  unfolding match_of
  match_of-hash d none h c keyed e = absurd (ground arith)
  match_of-hash d (some p) h c keyed e = elim (codes_eq.dec (text_or_nil p.fingerprint) []) [
    | yes nothing ↦ absurd (ground (arith, e, nothing))
    | no print ↦ elim (Option-cases (lookup (text_or_nil p.fingerprint) d)) [
      | inl unknown ↦ absurd (ground (arith, e, print, unknown))
      | inr (k, known) ↦
          let same : k ≡ c = ground (arith, e, print, known) in
          let same_hash : text_or_nil p.fingerprint ≡ h = ground (arith, e, print, known) in
          ap (hash_of lower) (sym same) ∙ (keyed (text_or_nil p.fingerprint) k known ∙ same_hash)
    ]
  ]

  there-IsListed :
      (h : Chars) (e : Entry) (entries : List Entry) → IsListed h entries → IsListed h (e ∷ entries)
  there-IsListed h e entries (c, same, k, id, i) = (c, same, k, id, there i)

  -- Each matched hash has an entry with the certificate's id.
  merge_disk-IsListed :
      (serials : List Chars) (d : Dict Chars TakCert) (files : List DiskCert) (h : Chars)
      → AreKeyed d
      → contains (merge_disk lower serials d files).1 h ≡ true
      → IsListed h (merge_disk lower serials d files).0
  unfolding merge_disk
  merge_disk-IsListed serials d [] h keyed i = absurd (ground arith)
  merge_disk-IsListed serials d (f ∷ files) h keyed i =
      by_match (match_of lower d f.pem) refl i (merge_disk-IsListed serials d files h keyed)
    where
      by_match :
          (o : Option (Chars × TakCert))
          → match_of lower d f.pem ≡ o
          → contains (add_hash o (merge_disk lower serials d files).1) h ≡ true
          → (contains (merge_disk lower serials d files).1 h ≡ true
              → IsListed h (merge_disk lower serials d files).0)
          → IsListed h (disk_entry lower serials f o ∷ (merge_disk lower serials d files).0)
      by_match none e j rest =
          there-IsListed h (disk_entry lower serials f none) (merge_disk lower serials d files).0
            (rest j)
      by_match (some (k, c)) e j rest = elim (codes_eq.dec h k) [
        | yes same ↦ (
          c,
          match_of-hash d f.pem k c keyed e ∙ sym same,
          disk_entry lower serials f (some (k, c)),
          unfold disk_entry in refl,
          here refl,
        )
        | no differ ↦
            there-IsListed h (disk_entry lower serials f (some (k, c)))
              (merge_disk lower serials d files).0 (rest (ground (arith, j, differ)))
      ]

  -- A certificate whose hash was not matched gets an entry of its own.
  add_unmatched-In :
      (matched : List Chars) (certs : List TakCert) (c : TakCert)
      → In c certs
      → hash_of lower c ≢ []
      → contains matched (hash_of lower c) ≡ false
      → In (tak_entry lower c) (add_unmatched lower matched certs)
  unfolding add_unmatched
  add_unmatched-In matched [] c i ne free = elim i [ ]
  add_unmatched-In matched (k ∷ certs) c (here e) ne free = rw (← e) (
      by_test (not (hash_of lower c == []) && not (contains matched (hash_of lower c)))
        (ground (arith, ne, free)))
    where
      by_test :
          (b : Bool)
          → b ≡ true
          → In (tak_entry lower c) (
              if b
              then tak_entry lower c ∷ add_unmatched lower matched certs
              else add_unmatched lower matched certs)
      by_test true e = here refl
      by_test false e = absurd (cc)
  add_unmatched-In matched (k ∷ certs) c (there i) ne free =
      by_test (not (hash_of lower k == []) && not (contains matched (hash_of lower k)))
        (add_unmatched-In matched certs c i ne free)
    where
      by_test :
          (b : Bool)
          → In (tak_entry lower c) (add_unmatched lower matched certs)
          → In (tak_entry lower c) (
              if b
              then tak_entry lower k ∷ add_unmatched lower matched certs
              else add_unmatched lower matched certs)
      by_test true j = there j
      by_test false j = j

  -- Every bundle on disk has an entry under its name, which may be downloaded unless the revocation list
  -- has its serial.
  abbrev pub IsOnDisk : List Chars → DiskCert → List Entry → Type 0
  IsOnDisk serials f entries =
      (e : Entry) × (e.name ≡ some f.cert_name)
      × (e.downloadable ≡ not (is_revoked lower serials f.pem))
      × In e entries

  merge_disk-IsOnDisk :
      (serials : List Chars) (d : Dict Chars TakCert) (files : List DiskCert) (f : DiskCert)
      → In f files
      → IsOnDisk serials f (merge_disk lower serials d files).0
  unfolding merge_disk
  merge_disk-IsOnDisk serials d [] f i = elim i [ ]
  merge_disk-IsOnDisk serials d (g ∷ files) f (here e) = rw (← e) (own (match_of lower d f.pem))
    where
      own :
          (o : Option (Chars × TakCert))
          → IsOnDisk serials f (disk_entry lower serials f o ∷ (merge_disk lower serials d files).0)
      own none = (
        disk_entry lower serials f none,
        unfold disk_entry in refl,
        unfold disk_entry in refl,
        here refl,
      )
      own (some (h, c)) = (
        disk_entry lower serials f (some (h, c)),
        unfold disk_entry in refl,
        unfold disk_entry in refl,
        here refl,
      )
  merge_disk-IsOnDisk serials d (g ∷ files) f (there i) =
      let (e, named, down, j) = merge_disk-IsOnDisk serials d files f i in (e, named, down, there j)

  -- The merged list of a user's certificates loses none: every bundle on disk has an entry under its
  -- name, which may be downloaded exactly when the revocation list has no serial of its file, and every
  -- certificate of certadmin with a hash has an entry with its id, or with that of one with the same hash.
  pub list_user_certs_complete :
      (serials : List Chars) (files : List DiskCert) (certs : List TakCert)
      → ((f : DiskCert)
          → In f files
          → IsOnDisk serials f (list_user_certs lower serials files certs))
        × ((c : TakCert)
            → In c certs
            → hash_of lower c ≢ []
            → IsListed (hash_of lower c) (list_user_certs lower serials files certs))
  unfolding list_user_certs
  list_user_certs_complete serials files certs = (on_disk, listed)
    where
      entries : List Entry
      entries = (merge_disk lower serials (by_hash lower certs) files).0

      matched : List Chars
      matched = (merge_disk lower serials (by_hash lower certs) files).1

      on_disk :
          (f : DiskCert)
          → In f files
          → IsOnDisk serials f (entries ++ add_unmatched lower matched certs)
      on_disk f i =
          let (e, named, down, j) = merge_disk-IsOnDisk serials (by_hash lower certs) files f i in
          (e, named, down, In-left (add_unmatched lower matched certs) j)

      listed :
          (c : TakCert)
          → In c certs
          → hash_of lower c ≢ []
          → IsListed (hash_of lower c) (entries ++ add_unmatched lower matched certs)
      listed c i ne = elim (Bool-cases (contains matched (hash_of lower c))) [
        | inl had ↦
            let (k, same, e, id, j) =
              merge_disk-IsListed serials (by_hash lower certs) files (hash_of lower c)
                (by_hash-AreKeyed certs) had in
            (k, same, e, id, In-left (add_unmatched lower matched certs) j)
        | inr free ↦ (
          c,
          refl,
          tak_entry lower c,
          unfold tak_entry in refl,
          In-right entries (add_unmatched-In matched certs c i ne free),
        )
      ]
