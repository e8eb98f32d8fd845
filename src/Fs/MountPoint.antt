-- ===== src/Fs/MountPoint.antt =====
-- The mount point of a file system: finding and removing a stale mount, making the directory, and
-- mounting (RemoteConfigFS of internal/fs/fs.go). The operating system and the FUSE library are a
-- parameter.
pub mod Outcomes
use configfs.Prelude.{
  ℕ, ℤ, pos, int_eq, Bool, true, false, not, List, [], ◌∷◌, ◌++◌, Option, none, some, length, ◌==◌,
  if◌then◌else◌,
}
use configfs.Strings.{Text, codes, text_eq, trim_space}
use configfs.Exec.{Result, ok, err, Exec, pure, raise, ◌>>=◌, ◌>>◌}

-- What running a command may end in, beside success: an exit code with what it printed, or another
-- error with what it printed.
pub data CommandError : Type 0 where
  exited : ℤ → Text → CommandError
  other_error : Text → CommandError

-- What os.Stat may say, beside that there is a directory.
pub data StatError : Type 0 where
  not_there : StatError
  stat_failed : StatError

pub data MountOption : Type 0 where
  fs_name : Text → MountOption
  subtype : Text → MountOption
  read_only : MountOption

pub data AttemptError : Type 0 where
  library_failed : AttemptError
  command_failed : CommandError → AttemptError

pub data MountError : Type 0 where
  unexpected_output : Text → MountError
  unexpected_exit : ℤ → MountError
  unexpected_error : MountError
  not_unmounted : List AttemptError → MountError
  not_directory : MountError
  not_checked : MountError
  not_created : MountError
  already_mounted : MountError
  mount_failed : MountError

-- The system's side, on its state: running a command, fuse.Unmount, os.Stat (whether it is a
-- directory), os.MkdirAll and fuse.Mount.
pub record System (S : Type 0) : Type 0 where
  pub run : List Text → Exec S CommandError (Unit {0})
  pub unmount : Text → Exec S (Unit {0}) (Unit {0})
  pub stat : Text → Exec S StatError Bool
  pub mkdir_all : Text → Exec S (Unit {0}) (Unit {0})
  pub fuse_mount : Text → List MountOption → Exec S (Unit {0}) (Unit {0})

-- mountExists, on what findmnt ended in
unfoldable pub mount_found : Result CommandError (Unit {0}) → Result MountError Bool
mount_found (ok _) = ok true
mount_found (err (exited code out)) =
    if int_eq code (pos 1)
    then (if text_eq out (trim_space out) then ok false else err (unexpected_output out))
    else err (unexpected_exit code)
mount_found (err (other_error out)) = err unexpected_error

-- An attempt that failed adds its error to the others.
abbrev pub add_error :
    {E : Type 0} → (E → AttemptError) → Result E (Unit {0}) → List AttemptError → List AttemptError
add_error f (ok _) es = es
add_error f (err e) es = es ++ f e ∷ []

-- The configured options of a mount
pub record MountOptions : Type 0 where
  pub writable : Bool
  pub name : Option Text
  pub subtype_name : Option Text

-- The options of NewRemoteConfigFS where it is given none
unfoldable pub mount_options_or_default : Option MountOptions → MountOptions
mount_options_or_default none = record { writable = true; name = none; subtype_name = none }
mount_options_or_default (some o) = o

-- the options that run of cmd/fs/main.go makes of --read_only
unfoldable pub options_of_flag : Bool → MountOptions
options_of_flag is_read_only = record {
  writable = not is_read_only;
  name = none;
  subtype_name = none;
}

abbrev pub or_configfs : Option Text → Text
or_configfs none = codes "configfs"
or_configfs (some t) = t

-- the options of Mount
unfoldable pub mount_options : MountOptions → List MountOption
mount_options o =
    fs_name (or_configfs o.name)
    ∷ subtype (or_configfs o.subtype_name)
    ∷ (if not o.writable then read_only ∷ [] else [])

abbrev pub created : Result (Unit {0}) (Unit {0}) → Result MountError (Unit {0})
created (ok _) = ok tt
created (err _) = err not_created

module _ {S : Type 0} (system : System S) (mount_point : Text) where
  -- mountExists
  unfoldable pub mount_exists : Exec S MountError Bool
  mount_exists s =
      let (r, s') = system.run (codes "findmnt" ∷ codes "--mountpoint" ∷ mount_point ∷ []) s in
      (mount_found r, s')

  -- the loop over commandsToAttempt
  unfoldable pub run_attempts : List (List Text) → List AttemptError → S → List AttemptError × S
  run_attempts [] errors s = (errors, s)
  run_attempts (c ∷ cs) errors s =
      let (r, s') = system.run c s in run_attempts cs (add_error command_failed r errors) s'

  abbrev pub commands_to_attempt : List (List Text)
  commands_to_attempt =
      (codes "fusermount" ∷ codes "-u" ∷ mount_point ∷ [])
      ∷ (codes "fusermount" ∷ codes "-uz" ∷ mount_point ∷ [])
      ∷ []

  -- fuse.Unmount and then the commands
  unfoldable pub attempt_all : S → List AttemptError × S
  attempt_all s =
      let (r, s') = system.unmount mount_point s in
      run_attempts commands_to_attempt (add_error (λ _. library_failed) r []) s'

  -- what AttemptUnmountIfNecessary makes of the attempts
  unfoldable pub attempted : Exec S MountError (Unit {0})
  attempted s =
      let (errors, s') = attempt_all s in
      (
        if not (length errors == length commands_to_attempt)
            then ok tt
            else err (not_unmounted errors),
        s',
      )

  -- AttemptUnmountIfNecessary
  unfoldable pub attempt_unmount_if_necessary : Exec S MountError (Unit {0})
  attempt_unmount_if_necessary = do exists ← mount_exists; if not exists then pure tt else attempted

  -- EnsureMountPoint, on what os.Stat said
  unfoldable pub ensure_on : Result StatError Bool → Exec S MountError (Unit {0})
  ensure_on (ok is_dir) = if not is_dir then raise not_directory else pure tt
  ensure_on (err stat_failed) = raise not_checked
  ensure_on (err not_there) = λ s. let (r, s') = system.mkdir_all mount_point s in (created r, s')

  -- EnsureMountPoint
  unfoldable pub ensure_mount_point : Exec S MountError (Unit {0})
  ensure_mount_point s = let (r, s') = system.stat mount_point s in ensure_on r s'

  abbrev pub mounted : Result (Unit {0}) (Unit {0}) → S → Result MountError (Unit {0}) × (Bool × S)
  mounted (ok _) s = (ok tt, (true, s))
  mounted (err _) s = (err mount_failed, (false, s))

  -- Mount; the state is whether there is a connection, and the system's
  unfoldable pub mount : MountOptions → Exec (Bool × S) MountError (Unit {0})
  mount o (connected, s) =
      let (r, s') = system.fuse_mount mount_point (mount_options o) s in
      if connected then (err already_mounted, (connected, s)) else mounted r s'
