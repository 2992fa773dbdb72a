-- ===== src/Backup/Retention/Prune.antt =====
-- What `prune` deletes and what it keeps.
use fast_tak.Base.{
  ℕ, zero, suc, ◌≤◌, ◌≡◌, ◌≢◌, refl, sym, ap, Bool, true, false, Option, none, some, List, [], ◌∷◌,
  ◌++◌, ◌⊎◌, inl, inr, arith, All, All-In, In, here, there, In-cons, if◌then◌else◌, take, drop,
  take-append-drop, nat_eq,
}
use mathlib.Core.Path.{subst}
use fast_tak.Base.Int.{pos}
use fast_tak.Base.Text.{codes_eq}
use fast_tak.Backup.Names.{Name, Stamp, instant}
use fast_tak.Backup.Directory.{File, Directory, exists, exists-nil, exists-unlink, unlink}
use fast_tak.Backup.Retention.{
  Stamped, listed_stamp, cons_stamped, collect_stamped, stamped_backups, sidecar, delete_all,
  reap_partials, prune,
}
use fast_tak.Backup.Retention.Sorted.{
  age_key, IsNewestFirst, stamped_backups-IsNewestFirst, In-sort_newest, All-sort_newest,
}

-- `stamped_backups` lists the file, as taken at this time.
abbrev pub IsBackup : Name → Stamp → Type 0
IsBackup name taken = listed_stamp name ≡ some taken

abbrev entry : Stamp → Name → Stamped
entry taken name = record { taken = taken; name = name }

In-cons_stamped_here :
    (listed : Option Stamp) (taken : Stamp) (name name' : Name) (rest : List Stamped)
    → listed ≡ some taken
    → name ≡ name'
    → In (entry taken name) (cons_stamped listed name' rest)
unfolding cons_stamped
In-cons_stamped_here listed taken name name' rest h e = rw h (here (ap (entry taken) e))

In-cons_stamped_there :
    (listed : Option Stamp) (a : Stamped) (name : Name) (rest : List Stamped)
    → In a rest
    → In a (cons_stamped listed name rest)
unfolding cons_stamped
In-cons_stamped_there none a name rest i = i
In-cons_stamped_there (some taken) a name rest i = there i

exists-cons_ne :
    (name : Name) (f : File) (d : Directory)
    → name ≢ f.name
    → exists name (f ∷ d) ≡ true
    → exists name d ≡ true
unfolding exists
exists-cons_ne name f d ne h = ground arith

In-collect_stamped :
    (name : Name) (taken : Stamp) (d : Directory)
    → IsBackup name taken
    → exists name d ≡ true
    → In (entry taken name) (collect_stamped d)
unfolding collect_stamped
In-collect_stamped name taken [] b h = absurd (exists_nil h)
  where
    exists_nil : exists name [] ≡ true → ⊥
    exists_nil e = cc (exists-nil name)
In-collect_stamped name taken (f ∷ d) b h = elim (codes_eq.dec name f.name) [
  | yes same ↦
      In-cons_stamped_here (listed_stamp f.name) taken name f.name (collect_stamped d)
        (subst (λ (n : Name). listed_stamp n ≡ some taken) same b) same
  | no other ↦
      In-cons_stamped_there (listed_stamp f.name) (entry taken name) f.name (collect_stamped d)
        (In-collect_stamped name taken d b (exists-cons_ne name f d other h))
]

All-cons_stamped :
    (listed : Option Stamp) (name : Name) (rest : List Stamped)
    → listed_stamp name ≡ listed
    → All (λ a. IsBackup a.name a.taken) rest
    → All (λ a. IsBackup a.name a.taken) (cons_stamped listed name rest)
unfolding cons_stamped
All-cons_stamped none name rest e all = all
All-cons_stamped (some taken) name rest e all = (e, all)

All-collect_stamped : (d : Directory) → All (λ a. IsBackup a.name a.taken) (collect_stamped d)
unfolding collect_stamped
All-collect_stamped [] = tt
All-collect_stamped (f ∷ d) =
    All-cons_stamped (listed_stamp f.name) f.name (collect_stamped d) refl (All-collect_stamped d)

-- What a deletion leaves was there, and is none of the deleted archives.
delete_all-exists :
    (as' : List Stamped) (d : Directory) (y : Name)
    → exists y (delete_all as' d).1 ≡ true
    → (exists y d ≡ true) × All (λ a. y ≢ a.name) as'
unfolding delete_all
delete_all-exists [] d y h = (h, tt)
delete_all-exists (a ∷ as') d y h =
    let (left, others) = delete_all-exists as' (unlink (sidecar a.name) (unlink a.name d)) y h in
    (
      ground (arith, exists-unlink y (sidecar a.name) (unlink a.name d), exists-unlink y a.name d),
      (
        λ e.
            ground
              (arith, exists-unlink y (sidecar a.name) (unlink a.name d), exists-unlink y a.name d),
        others,
      ),
    )

In-deleted :
    (there_is : Bool) (name x : Name) (rest : List Name)
    → In x (if there_is then name ∷ rest else rest)
    → (x ≡ name) ⊎ In x rest
In-deleted true name x rest i = In-cons i
In-deleted false name x rest i = inr i

-- Every deleted name is that of an archive on the list.
delete_all-In :
    (as' : List Stamped) (d : Directory) (x : Name)
    → In x (delete_all as' d).0
    → (a : Stamped) × (a.name ≡ x) × In a as'
unfolding delete_all
delete_all-In [] d x i = elim i [ ]
delete_all-In (a ∷ as') d x i =
    let d' = unlink (sidecar a.name) (unlink a.name d) in
    elim (In-deleted (exists a.name d) a.name x (delete_all as' d').0 i) [
      | inl e ↦ (a, sym e, here refl)
      | inr j ↦ let (b, e, k) = delete_all-In as' d' x j in (b, e, there k)
    ]

In-append : (a : Stamped) (xs ys : List Stamped) → In a (xs ++ ys) → In a xs ⊎ In a ys
In-append a [] ys i = inr i
In-append a (x ∷ xs) ys (here e) = inl (here e)
In-append a (x ∷ xs) ys (there i) = elim (In-append a xs ys i) [
  | inl j ↦ inl (there j)
  | inr j ↦ inr j
]

In-append_right : (a : Stamped) (xs ys : List Stamped) → In a ys → In a (xs ++ ys)
In-append_right a [] ys i = i
In-append_right a (x ∷ xs) ys i = there (In-append_right a xs ys i)

-- In a list that is newest first, nothing of the rear is newer than something of the front.
IsNewestFirst-append :
    (xs ys : List Stamped) (a b : Stamped)
    → IsNewestFirst (xs ++ ys)
    → In a xs
    → In b ys
    → age_key b ≤ age_key a
IsNewestFirst-append [] ys a b h i j = elim i [ ]
IsNewestFirst-append (x ∷ xs) ys a b (all, h) (there i) j = IsNewestFirst-append xs ys a b h i j
IsNewestFirst-append (x ∷ xs) ys a b (all, h) (here e) j =
    subst (λ (c : Stamped). age_key b ≤ age_key c) (sym e)
      (All-In (λ c. age_key c ≤ age_key x) (In-append_right b xs ys j) all)

All-drop : (P : Stamped → Type 0) (n : ℕ) (as' : List Stamped) → All P as' → All P (drop n as')
All-drop P zero as' all = all
All-drop P (suc n) [] all = tt
All-drop P (suc n) (a ∷ as') (h, all) = All-drop P n as' all

pub stamped_backups-IsBackup :
    (d : Directory) → All (λ a. IsBackup a.name a.taken) (stamped_backups d)
unfolding stamped_backups
stamped_backups-IsBackup d = All-sort_newest _ (collect_stamped d) (All-collect_stamped d)

-- An archive that is left after the newest `k` are kept is one of those.
left-In-take :
    (k : ℕ) (d : Directory) (y : Name) (t : Stamp)
    → IsBackup y t
    → exists y (delete_all (drop k (stamped_backups d)) d).1 ≡ true
    → In (entry t y) (take k (stamped_backups d))
unfolding stamped_backups
left-In-take k d y t b h =
    let (was, others) = delete_all-exists (drop k (stamped_backups d)) d y h in
    let listed = In-sort_newest (entry t y) (collect_stamped d) (In-collect_stamped y t d b was) in
    let whole = take-append-drop k (stamped_backups d) in
    elim (In-append (entry t y) (take k (stamped_backups d)) (drop k (stamped_backups d))
      (subst (In (entry t y)) (sym whole) listed)) [
        | inl front ↦ front
        | inr rear ↦ absurd (All-In (λ a. y ≢ a.name) rear others refl)
      ]

-- After `prune(keep=k)`, no archive that it deleted is newer than an archive that it left, by the
-- times in their names, whatever their modification times say.
pub prune_keeps_newest :
    (k max_age now : ℕ) (d : Directory) (x y : Name) (s t : Stamp)
    → In x (prune (pos k) max_age now d).0
    → exists y (prune (pos k) max_age now d).1 ≡ true
    → IsBackup x s
    → IsBackup y t
    → instant s ≤ instant t
unfolding prune
prune_keeps_newest k max_age now d x y s t deleted left bx b_y =
    let d' = reap_partials max_age now d in
    let all = stamped_backups d' in
    let (a, named, rear) = delete_all-In (drop k all) d' x deleted in
    let front = left-In-take k d' y t b_y left in
    let whole = take-append-drop k all in
    let ordered =
      IsNewestFirst-append (take k all) (drop k all) (entry t y) a
        (subst IsNewestFirst (sym whole) (stamped_backups-IsNewestFirst d')) front rear in
    let dated =
      All-In (λ b. IsBackup b.name b.taken) rear (All-drop _ k all (stamped_backups-IsBackup d')) in
    ground (arith, named, ordered, dated, bx)

-- Every archive that `prune(keep=k)` leaves is one of the first `k` of the list, newest first.
pub prune_leaves_newest :
    (k max_age now : ℕ) (d : Directory) (y : Name) (t : Stamp)
    → exists y (prune (pos k) max_age now d).1 ≡ true
    → IsBackup y t
    → In (entry t y) (take k (stamped_backups (reap_partials max_age now d)))
unfolding prune
prune_leaves_newest k max_age now d y t left b =
    left-In-take k (reap_partials max_age now d) y t b left
