-- ===== src/Backup/Archive/Outcome.antt =====
-- What a successful `make_archive` leaves on the disk, and what made it succeed.
use mathlib.Core.Path.{subst}
use fast_tak.Base.{
  ℕ, String, ◌≡◌, ◌≢◌, refl, sym, List, ◌∷◌, ◌++◌, arith, true, false, ap, length, length-append,
}
use fast_tak.Base.Int.{is_zero}
use fast_tak.Base.Text.{codes, codes_eq}
use fast_tak.Base.Result.{Result, ok, err, >>=-eq-ok}
use fast_tak.Backup.Names.{Name}
use fast_tak.Backup.Directory.{
  Directory, exists, exists-unlink, exists-write_file, unlink, write_file,
}
use fast_tak.Backup.Keys.{Line, load_or_create}
use fast_tak.Backup.Retention.{sidecar}
use fast_tak.Backup.Archive.{
  Outside, expect_zero, Disk, partial, pipeline, stream_encrypted_archive, publish_with, publish,
  archive_staged, archive_for, make_archive, populate_staging, manifest_of,
}
use fast_tak.Backup.Archive.Staged.{IsClean, expect_zero-IsClean, IsCollected, populate_staging-ok}

-- The whole pipeline ended with code 0.
pub record IsEncrypted (o : Outside) (recipient : Line) : Type 0 where
  pub encrypted : IsClean (o.age recipient)
  pub tarred : is_zero o.tar_code ≡ true
  pub gzipped : is_zero o.gzip_code ≡ true

pipeline-IsEncrypted :
    (o : Outside) (recipient : Line) → pipeline o recipient ≡ ok tt → IsEncrypted o recipient
unfolding pipeline
pipeline-IsEncrypted o recipient h =
    let (tt, clean, rest) = >>=-eq-ok (expect_zero "age" (o.age recipient)) _ h in
    record {
      encrypted = expect_zero-IsClean "age" (o.age recipient) clean;
      tarred = ground (arith, rest);
      gzipped = ground (arith, rest);
    }

name-ne-longer : (name suffix : Name) (c : ℕ) → name ≢ name ++ (c ∷ suffix)
name-ne-longer name suffix c e = omega (arith, ap length e, length-append name (c ∷ suffix))

-- The archive and its checksum file are in the directory, and the partial file is not.
pub record IsPublished (name : Name) (d : Directory) : Type 0 where
  pub has_archive : exists name d ≡ true
  pub has_sidecar : exists (sidecar name) d ≡ true
  pub no_partial : exists (partial name) d ≡ false

sidecar-ne-partial : (name : Name) → partial name ≢ sidecar name
sidecar-ne-partial name e = omega (
  arith,
  ap length e,
  length-append name (codes ".partial"),
  length-append name (codes ".sha256"),
)

moved : Outside → Name → Directory → Directory
moved o name files =
    write_file (sidecar name) o.clock (write_file name o.clock (unlink (partial name) files))

moved-IsPublished :
    (o : Outside) (name : Name) (files : Directory) → IsPublished name (moved o name files)
unfolding moved
moved-IsPublished o name files =
    let before = unlink (partial name) files in
    let archived = write_file name o.clock before in
    record {
      has_archive = ground (
        arith,
        exists-write_file name (sidecar name) o.clock archived,
        exists-write_file name name o.clock before,
      );
      has_sidecar =
          ground (arith, exists-write_file (sidecar name) (sidecar name) o.clock archived);
      no_partial = ground (
        arith,
        exists-write_file (partial name) (sidecar name) o.clock archived,
        exists-write_file (partial name) name o.clock before,
        exists-unlink (partial name) (partial name) files,
        sidecar-ne-partial name,
        λ (e : partial name ≡ name). name-ne-longer name (codes "partial") b'.' (sym e),
      );
    }

-- What made an archive: the keys were found, the staging directory was populated, the pipeline ended
-- well, and the result could be moved and read.
pub record IsMade (o : Outside) (keys : Line × Line) : Type 0 where
  pub collected : IsCollected o (manifest_of o)
  pub streamed : IsEncrypted o keys.1

publish_with-ok :
    (o : Outside) (name : Name) (r dg : Result (Unit {0})) (d d' : Disk) (size : ℕ)
    → publish_with o name r dg d ≡ (d', ok size)
    → IsPublished name d'.directory
unfolding publish_with moved
publish_with-ok o name (err e) dg d d' size h = absurd (cc)
publish_with-ok o name (ok _) (err e) d d' size h = absurd (cc)
publish_with-ok o name (ok _) (ok _) d d' size h =
    subst (λ (x : Disk × Result ℕ). IsPublished name x.0.directory) h
      (moved-IsPublished o name d.directory)

publish-ok :
    (o : Outside) (name : Name) (recipient : Line) (s : Result (Unit {0})) (d d' : Disk) (size : ℕ)
    → publish o name (stream_encrypted_archive o (partial name) recipient s d) ≡ (d', ok size)
    → IsEncrypted o recipient × IsPublished name d'.directory
unfolding stream_encrypted_archive
publish-ok o name recipient (err e) d d' size h = absurd (unfold publish in cc)
publish-ok o name recipient (ok _) d d' size h = by_pipeline (pipeline o recipient) refl _ h
  where
    by_pipeline :
        (p : Result (Unit {0}))
        → pipeline o recipient ≡ p
        → (d1 : Disk) → publish o name (d1, p) ≡ (d', ok size)
        → IsEncrypted o recipient × IsPublished name d'.directory
    by_pipeline (err e) q d1 eq = absurd (unfold publish in cc)
    by_pipeline (ok tt) q d1 eq = (
      pipeline-IsEncrypted o recipient q,
      publish_with-ok o name o.replace o.digest d1 d' size (unfold publish in eq),
    )

-- An archive that is reported as made was made of everything that belongs in it: the identity file gives
-- the keys, each program that dumped a database or packed a directory ended with code 0, so did the three
-- programs of the encrypting pipeline, and no required file of TAK was missing. The archive and its
-- checksum file are then in the directory, and the partial file is not.
pub make_archive-ok :
    (o : Outside) (name : Name) (d d' : Disk) (size : ℕ)
    → make_archive o name d ≡ (d', ok size)
    → (keys : Line × Line) × ((load_or_create o.identity_path o.keygen d.identity).1 ≡ ok keys)
      × IsMade o keys
      × IsPublished name d'.directory
unfolding make_archive
make_archive-ok o name d d' size h =
    by_keys (load_or_create o.identity_path o.keygen d.identity).1 refl _ h
  where
    by_staging :
        (keys : Line × Line)
        → (s : Result (List String)) → populate_staging o (manifest_of o) ≡ s
        → (d1 : Disk) → archive_staged o name keys.1 s d1 ≡ (d', ok size)
        → IsMade o keys × IsPublished name d'.directory
    by_staging keys (err e) q d1 eq = absurd (unfold archive_staged in cc)
    by_staging keys (ok files) q d1 eq =
        let collected = (populate_staging-ok o (manifest_of o) files q).1 in
        let (streamed, published) =
          publish-ok o name keys.1 o.spawn d1 d' size (unfold archive_staged in eq) in
        (record { collected = collected; streamed = streamed }, published)

    by_keys :
        (k : Result (Line × Line))
        → (load_or_create o.identity_path o.keygen d.identity).1 ≡ k
        → (d1 : Disk) → archive_for o name k d1 ≡ (d', ok size)
        → (keys : Line × Line) × ((load_or_create o.identity_path o.keygen d.identity).1 ≡ ok keys)
          × IsMade o keys
          × IsPublished name d'.directory
    by_keys (err e) q d1 eq = absurd (unfold archive_for in cc)
    by_keys (ok (identity, recipient)) q d1 eq =
        let (made, published) =
          by_staging (identity, recipient) (populate_staging o (manifest_of o)) refl d1
            (unfold archive_for in eq) in
        ((identity, recipient), q, made, published)
