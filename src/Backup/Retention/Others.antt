-- ===== src/Backup/Retention/Others.antt =====
-- `prune` leaves alone what is no backup file: the key, the state file and the lock.
use fast_tak.Base.{
  ℕ, zero, suc, ◌-◌, ◌≡◌, ◌≢◌, refl, ◌∙◌, true, none, some, List, [], ◌∷◌, ◌++◌, inl, inr, arith,
  All, length, drop, Option-cases, is_some,
}
use fast_tak.Base.Int.{ℤ, pos, negsuc, slice_from}
use fast_tak.Base.Text.{codes, codes_eq, strip_prefix}
use fast_tak.Backup.Names.{Name, backup_prefix, Stamp, matches_glob}
use fast_tak.Backup.Directory.{Directory, exists, exists-unlink, unlink}
use fast_tak.Backup.Retention.{
  Stamped, listed_stamp, stamped_backups, sidecar, delete_all, reap_partials, prune,
}
use fast_tak.Backup.Retention.Prune.{IsBackup, stamped_backups-IsBackup}

-- The name does not begin as backup files do.
abbrev pub IsOther : Name → Type 0
IsOther name = strip_prefix backup_prefix name ≡ none

strip_prefix-longer :
    (ps xs ys : List ℕ) {rest : List ℕ}
    → strip_prefix ps xs ≡ some rest
    → strip_prefix ps (xs ++ ys) ≡ some (rest ++ ys)
unfolding strip_prefix
strip_prefix-longer [] xs ys h = ground arith
strip_prefix-longer (p ∷ ps) [] ys h = cc
strip_prefix-longer (p ∷ ps) (x ∷ xs) ys {rest} h =
    ground (arith, strip_prefix-longer ps xs ys {rest = rest})

glob-begins :
    (suffix : List ℕ) (name : Name)
    → matches_glob suffix name ≡ true
    → is_some (strip_prefix backup_prefix name) ≡ true
unfolding matches_glob
glob-begins suffix name h = ground arith

backup-begins :
    (name : Name) (s : Stamp) → IsBackup name s → is_some (strip_prefix backup_prefix name) ≡ true
unfolding listed_stamp
backup-begins name s b = ground (arith, glob-begins (codes ".age") name)

other-ne-backup : (y name : Name) (s : Stamp) → IsOther y → IsBackup name s → y ≢ name
other-ne-backup y name s o b e = ground (arith, backup-begins name s b)

other-ne-sidecar : (y name : Name) (s : Stamp) → IsOther y → IsBackup name s → y ≢ sidecar name
other-ne-sidecar y name s o b e = elim (Option-cases (strip_prefix backup_prefix name)) [
  | inl other ↦ ground (arith, backup-begins name s b)
  | inr (rest, begins) ↦
      ground (arith, strip_prefix-longer backup_prefix name (codes ".sha256") begins)
]

reap_partials-other :
    (max_age now : ℕ) (d : Directory) (y : Name)
    → IsOther y
    → exists y (reap_partials max_age now d) ≡ exists y d
unfolding reap_partials exists
reap_partials-other max_age now [] y o = refl
reap_partials-other max_age now (f ∷ d) y o =
    ground (arith, reap_partials-other max_age now d y o, glob-begins (codes ".partial") f.name)

delete_all-other :
    (as' : List Stamped) (d : Directory) (y : Name)
    → IsOther y
    → All (λ a. IsBackup a.name a.taken) as'
    → exists y (delete_all as' d).1 ≡ exists y d
unfolding delete_all
delete_all-other [] d y o all = refl
delete_all-other (a ∷ as') d y o (b, all) =
    delete_all-other as' (unlink (sidecar a.name) (unlink a.name d)) y o all
    ∙ ground (
      arith,
      exists-unlink y (sidecar a.name) (unlink a.name d),
      exists-unlink y a.name d,
      other-ne-backup y a.name a.taken o b,
      other-ne-sidecar y a.name a.taken o b,
    )

All-drop : (P : Stamped → Type 0) (n : ℕ) (as' : List Stamped) → All P as' → All P (drop n as')
All-drop P zero as' all = all
All-drop P (suc n) [] all = tt
All-drop P (suc n) (a ∷ as') (h, all) = All-drop P n as' all

All-slice_from :
    (P : Stamped → Type 0) (k : ℤ) (as' : List Stamped) → All P as' → All P (slice_from k as')
All-slice_from P (pos n) as' all = All-drop P n as' all
All-slice_from P (negsuc n) as' all = All-drop P (length as' - suc n) as' all

-- For every argument, negative ones included, `prune` neither removes nor creates a file whose name
-- does not begin with `fasttak-backup-`, such as the key, the state file and the lock.
pub prune-other :
    (keep : ℤ) (max_age now : ℕ) (d : Directory) (y : Name)
    → IsOther y
    → exists y (prune keep max_age now d).1 ≡ exists y d
unfolding prune
prune-other keep max_age now d y o =
    let d' = reap_partials max_age now d in
    delete_all-other (slice_from keep (stamped_backups d')) d' y o
      (All-slice_from _ keep (stamped_backups d') (stamped_backups-IsBackup d'))
    ∙ reap_partials-other max_age now d y o
