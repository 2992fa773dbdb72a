-- ===== src/Backup/State.antt =====
-- The state file of the backups (monitor/app/backup/state.py): what `read` makes of the file and how
-- `write` replaces it. A write that fails leaves the file as it was, since the new text goes to
-- another file first.
use fast_tak.Base.{String, Bool, Option, none, some, if◌then◌else◌}
use fast_tak.Base.Result.{Result, ok, err, type_error, os_error}
use fast_tak.Backup.Names.{Name, Stamp}

pub data RunStatus : Type 0 where
  running success failed : RunStatus

pub record LastRun : Type 0 where
  pub started_at : Stamp
  pub finished_at : Option Stamp
  pub status : RunStatus
  pub filename : Name
  pub error : Option String

pub record State : Type 0 where
  pub key_downloaded_at : Option Stamp
  pub last_run : Option LastRun

-- A text that is no JSON, a JSON text that is no object, and an object, whose keys may be missing.
pub data StateFile : Type 0 where
  missing corrupt no_object : StateFile
  object : Option (Option Stamp) → Option (Option LastRun) → StateFile

abbrev pub or_null {ℓ} : {A : Type ℓ} → Option (Option A) → Option A
or_null none = none
or_null (some o) = o

abbrev pub defaults : State
defaults = record { key_downloaded_at = none; last_run = none }

-- `{**DEFAULTS, **json.loads(...)}`, which raises a `TypeError` where the text is no object.
unfoldable pub read : StateFile → Result State
read missing = ok defaults
read corrupt = ok defaults
read no_object = err type_error
read (object key last) = ok (record { key_downloaded_at = or_null key; last_run = or_null last })

-- `disk` says whether the temporary file can be written and moved.
unfoldable pub write : Bool → State → StateFile → StateFile × Result (Unit {0})
write disk s old =
    if disk
    then (object (some s.key_downloaded_at) (some s.last_run), ok tt)
    else (old, err os_error)

write_with : Bool → (State → State) → Result State → StateFile → StateFile × Result (Unit {0})
write_with disk change (ok s) file = write disk (change s) file
write_with disk change (err e) file = (file, err e)

unfoldable pub mark_key_downloaded : Bool → Stamp → StateFile → StateFile × Result (Unit {0})
unfolding write_with
mark_key_downloaded disk now file =
    write_with disk (λ s. record { key_downloaded_at = some now; last_run = s.last_run })
      (read file) file

unfoldable pub write_last_run : Bool → LastRun → StateFile → StateFile × Result (Unit {0})
unfolding write_with
write_last_run disk last_run file =
    write_with disk
      (λ s. record { key_downloaded_at = s.key_downloaded_at; last_run = some last_run })
      (read file) file
