-- ===== src/Backup/Directory.antt =====
-- The backup directory as the modelled code sees it: the files with their modification times.
use fast_tak.Base.{ℕ, ◌≡◌, refl, Bool, true, false, List, [], ◌∷◌, arith, ◌==◌, if◌then◌else◌}
use fast_tak.Base.Text.{codes_eq}
use fast_tak.Backup.Names.{Name}

pub record File : Type 0 where
  pub name : Name
  pub mtime : ℕ

abbrev pub Directory : Type 0
Directory = List File

-- `p.exists()`
unfoldable pub exists : Name → Directory → Bool
exists name [] = false
exists name (f ∷ d) = if name == f.name then true else exists name d

-- `p.unlink()`, and nothing where the file is missing.
unfoldable pub unlink : Name → Directory → Directory
unlink name [] = []
unlink name (f ∷ d) = let rest = unlink name d in if name == f.name then rest else f ∷ rest

-- A write under a name, which replaces what was there.
unfoldable pub write_file : Name → ℕ → Directory → Directory
unfolding unlink
write_file name now d = record { name = name; mtime = now } ∷ unlink name d

pub exists-nil : (x : Name) → exists x [] ≡ false
unfolding exists
exists-nil x = refl

pub exists-unlink :
    (x name : Name) (d : Directory)
    → exists x (unlink name d) ≡ (if x == name then false else exists x d)
unfolding exists unlink
exists-unlink x name [] = ground arith
exists-unlink x name (f ∷ d) = ground (arith, exists-unlink x name d)

pub exists-write_file :
    (x name : Name) (now : ℕ) (d : Directory)
    → exists x (write_file name now d) ≡ (if x == name then true else exists x d)
unfolding write_file exists
exists-write_file x name now d = ground (arith, exists-unlink x name d)
