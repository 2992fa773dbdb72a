-- ===== src/Backup/Retention.antt =====
-- Retention (monitor/app/backup/retention.py): the archives newest first, the reaping of stale
-- partial files, and `prune`.
pub mod Sorted
pub mod Prune
pub mod Others
use fast_tak.Base.{
  ℕ, String, ◌+◌, ◌≡◌, refl, Bool, true, false, not, ◌&&◌, ◌||◌, Option, none, some, List, [], ◌∷◌,
  ◌++◌, take, drop, ltb, leb, ◌==◌, nat_eq, if◌then◌else◌,
}
use fast_tak.Base.Int.{ℤ, slice_from}
use fast_tak.Base.Text.{codes, codes_eq, text_leb}
use fast_tak.Backup.Names.{Name, Stamp, instant, matches_glob, taken_at}
use fast_tak.Backup.Directory.{File, Directory, exists, unlink}

pub record Stamped : Type 0 where
  pub taken : Stamp
  pub name : Name

-- `(taken_at, path)` pairs are compared by time and then by name.
unfoldable pub newer_eq : Stamped → Stamped → Bool
newer_eq a b =
    let ia = instant a.taken in
    let ib = instant b.taken in if ltb ib ia then true else (ia == ib) && text_leb b.name a.name

-- The time of an archive that the glob lists, if its name gives one.
unfoldable pub listed_stamp : Name → Option Stamp
listed_stamp name = if matches_glob (codes ".age") name then taken_at name else none

-- `stamped.append(...)` or `continue`.
unfoldable pub cons_stamped : Option Stamp → Name → List Stamped → List Stamped
cons_stamped none name rest = rest
cons_stamped (some taken) name rest = record { taken = taken; name = name } ∷ rest

unfoldable pub collect_stamped : Directory → List Stamped
collect_stamped [] = []
collect_stamped (f ∷ d) = cons_stamped (listed_stamp f.name) f.name (collect_stamped d)

-- `sorted(..., reverse=True)`
unfoldable pub insert_newest : Stamped → List Stamped → List Stamped
insert_newest a [] = a ∷ []
insert_newest a (b ∷ bs) =
    let rest = insert_newest a bs in if newer_eq a b then a ∷ b ∷ bs else b ∷ rest

unfoldable pub sort_newest : List Stamped → List Stamped
sort_newest [] = []
sort_newest (a ∷ as') = insert_newest a (sort_newest as')

unfoldable pub stamped_backups : Directory → List Stamped
stamped_backups d = sort_newest (collect_stamped d)

-- `_reap_partials`, at the time `now`.
unfoldable pub reap_partials : ℕ → ℕ → Directory → Directory
reap_partials max_age now [] = []
reap_partials max_age now (f ∷ d) =
    let rest = reap_partials max_age now d in
    if matches_glob (codes ".partial") f.name && ltb (f.mtime + max_age) now then rest else f ∷ rest

-- `p.with_suffix(p.suffix + ".sha256")` of an archive.
abbrev pub sidecar : Name → Name
sidecar name = name ++ codes ".sha256"

-- The loop over `to_delete`: the deleted names, and the directory.
unfoldable pub delete_all : List Stamped → Directory → List Name × Directory
delete_all [] d = ([], d)
delete_all (a ∷ rest) d =
    let (deleted, d') = delete_all rest (unlink (sidecar a.name) (unlink a.name d)) in
    (if exists a.name d then a.name ∷ deleted else deleted, d')

-- `prune`, where no `unlink` raises, but for a file that is not there.
unfoldable pub prune : ℤ → ℕ → ℕ → Directory → List Name × Directory
prune keep max_age now d =
    let d' = reap_partials max_age now d in delete_all (slice_from keep (stamped_backups d')) d'

-- Where an `unlink` raises an OSError that is not caught: at which entry of the directory, as the partial files
-- are reaped, or at which archive that is to be deleted, or at its checksum file.
pub data PruneFault : Type 0 where
  at_partial at_archive at_sidecar : ℕ → PruneFault

unfoldable pub unlink_first : List Stamped → Directory → Directory
unlink_first [] d = d
unlink_first (a ∷ rest) d = unlink a.name d

-- The directory that `prune` leaves where it raises.
unfoldable pub prune_until : PruneFault → ℤ → ℕ → ℕ → Directory → Directory
prune_until (at_partial n) keep max_age now d = reap_partials max_age now (take n d) ++ drop n d
prune_until (at_archive n) keep max_age now d =
    let d' = reap_partials max_age now d in
    (delete_all (take n (slice_from keep (stamped_backups d'))) d').1
prune_until (at_sidecar n) keep max_age now d =
    let d' = reap_partials max_age now d in
    let to_delete = slice_from keep (stamped_backups d') in
    unlink_first (drop n to_delete) (delete_all (take n to_delete) d').1
