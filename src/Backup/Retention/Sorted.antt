-- ===== src/Backup/Retention/Sorted.antt =====
-- The archives come newest first.
use fast_tak.Base.{
  ℕ, ◌≤◌, ◌≡◌, true, false, List, [], ◌∷◌, inl, inr, arith, All, In, here, there, Bool-cases,
  nat_eq,
}
use fast_tak.Backup.Names.{instant}
use fast_tak.Backup.Directory.{Directory}
use fast_tak.Backup.Retention.{
  Stamped, newer_eq, collect_stamped, insert_newest, sort_newest, stamped_backups,
}

abbrev pub age_key : Stamped → ℕ
age_key a = instant a.taken

-- No element is newer than one before it.
abbrev pub IsNewestFirst : List Stamped → Type 0
IsNewestFirst [] = Unit
IsNewestFirst (a ∷ bs) = All (λ b. age_key b ≤ age_key a) bs × IsNewestFirst bs

newer_eq-le : (a b : Stamped) → newer_eq a b ≡ true → age_key b ≤ age_key a
unfolding newer_eq nat_eq
newer_eq-le a b h = ground arith

not_newer_eq-le : (a b : Stamped) → newer_eq a b ≡ false → age_key a ≤ age_key b
unfolding newer_eq
not_newer_eq-le a b h = ground arith

All-mono :
    (a b : Stamped) (cs : List Stamped)
    → age_key a ≤ age_key b
    → All (λ c. age_key c ≤ age_key a) cs
    → All (λ c. age_key c ≤ age_key b) cs
All-mono a b [] h all = tt
All-mono a b (c ∷ cs) h (le, all) = (omega arith, All-mono a b cs h all)

All-insert_newest :
    (P : Stamped → Type 0) (a : Stamped) (bs : List Stamped)
    → P a
    → All P bs
    → All P (insert_newest a bs)
unfolding insert_newest
All-insert_newest P a [] h all = (h, tt)
All-insert_newest P a (b ∷ bs) h (hb, all) = elim (Bool-cases (newer_eq a b)) [
  | inl newer ↦ rw newer (h, (hb, all))
  | inr older ↦ rw older (hb, All-insert_newest P a bs h all)
]

insert_newest-IsNewestFirst :
    (a : Stamped) (bs : List Stamped) → IsNewestFirst bs → IsNewestFirst (insert_newest a bs)
unfolding insert_newest
insert_newest-IsNewestFirst a [] h = (tt, tt)
insert_newest-IsNewestFirst a (b ∷ bs) (all, h) = elim (Bool-cases (newer_eq a b)) [
  | inl newer ↦
      rw newer ((newer_eq-le a b newer, All-mono b a bs (newer_eq-le a b newer) all), (all, h))
  | inr older ↦ rw older (
    All-insert_newest (λ c. age_key c ≤ age_key b) a bs (not_newer_eq-le a b older) all,
    insert_newest-IsNewestFirst a bs h,
  )
]

sort_newest-IsNewestFirst : (as' : List Stamped) → IsNewestFirst (sort_newest as')
unfolding sort_newest
sort_newest-IsNewestFirst [] = tt
sort_newest-IsNewestFirst (a ∷ as') =
    insert_newest-IsNewestFirst a (sort_newest as') (sort_newest-IsNewestFirst as')

-- Whatever stands in the directory, the archives are listed newest first.
pub stamped_backups-IsNewestFirst : (d : Directory) → IsNewestFirst (stamped_backups d)
unfolding stamped_backups
stamped_backups-IsNewestFirst d = sort_newest-IsNewestFirst (collect_stamped d)

In-deeper :
    (a b c : Stamped) (bs cs : List Stamped)
    → (In b (a ∷ bs) → In b cs)
    → In b (c ∷ bs)
    → In b (c ∷ cs)
In-deeper a b c bs cs f (here e) = here e
In-deeper a b c bs cs f (there j) = there (f (there j))

In-swap :
    (a b c : Stamped) (bs cs : List Stamped)
    → (In b (a ∷ bs) → In b cs)
    → In b (a ∷ c ∷ bs)
    → In b (c ∷ cs)
In-swap a b c bs cs f (here e) = there (f (here e))
In-swap a b c bs cs f (there j) = In-deeper a b c bs cs f j

In-insert_newest : (a b : Stamped) (bs : List Stamped) → In b (a ∷ bs) → In b (insert_newest a bs)
unfolding insert_newest
In-insert_newest a b [] i = i
In-insert_newest a b (c ∷ bs) i = elim (Bool-cases (newer_eq a c)) [
  | inl newer ↦ rw newer i
  | inr older ↦ rw older (In-swap a b c bs (insert_newest a bs) (In-insert_newest a b bs) i)
]

pub In-sort_newest : (b : Stamped) (as' : List Stamped) → In b as' → In b (sort_newest as')
unfolding sort_newest
In-sort_newest b [] i = elim i [ ]
In-sort_newest b (a ∷ as') (here e) = In-insert_newest a b (sort_newest as') (here e)
In-sort_newest b (a ∷ as') (there i) =
    In-insert_newest a b (sort_newest as') (there (In-sort_newest b as' i))

pub All-sort_newest :
    (P : Stamped → Type 0) (as' : List Stamped) → All P as' → All P (sort_newest as')
unfolding sort_newest
All-sort_newest P [] all = tt
All-sort_newest P (a ∷ as') (h, all) =
    All-insert_newest P a (sort_newest as') h (All-sort_newest P as' all)
