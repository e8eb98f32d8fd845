-- ===== src/Fs/MountPoint/Outcomes.antt =====
-- What the mount point functions of internal/fs/fs.go return.
use configfs.Prelude.{
  not, ◌==◌, if◌then◌else◌, ℕ, ◌+◌, arith, ◌≡◌, ◌≢◌, refl, ◌∙◌, ap, ◌↔◌, inl, inr, Bool, true,
  false, List, [], ◌∷◌, Bool-cases, length, length-append,
}
use configfs.Strings.{Text, codes}
use configfs.Exec.{Result, ok, err, ◌>>=◌}
use configfs.Fs.MountPoint.{
  StatError, not_there, stat_failed, AttemptError, command_failed, library_failed, System,
  mount_exists, run_attempts, attempt_all, attempted, attempt_unmount_if_necessary, ensure_on,
  ensure_mount_point, add_error, created, not_unmounted,
}

abbrev failure : {E A : Type 0} → Result E A → ℕ
failure (ok _) = 0
failure (err _) = 1

length-add_error :
    {E : Type 0} (f : E → AttemptError) (r : Result E (Unit {0})) (es : List AttemptError)
    → length (add_error f r es) ≡ length es + failure r
length-add_error f (ok _) es = ground arith
length-add_error f (err e) es = length-append es (f e ∷ [])

made_ok : (r : Result (Unit {0}) (Unit {0})) → created r ≡ ok tt → r ≡ ok tt
made_ok (ok _) e = refl
made_ok (err _) e = cc

zero_add : (n : ℕ) → 0 + n ≡ n
zero_add n = omega arith

decided :
    (n : ℕ) (es : List AttemptError)
    → length es ≡ n
    → ((if not (length es == 2) then ok tt else err (not_unmounted es)) ≡ ok tt) ↔ (n ≢ 2)
decided n es same = elim (Bool-cases (length es == 2)) [
  | inl two ↦
      (λ e _. (let e2 : err (not_unmounted es) ≡ ok tt = rw two at e in cc), λ h. ground arith)
  | inr other ↦ (λ _ h. ground arith, λ _. rw other refl)
]

module _ {S : Type 0} (system : System S) (mount_point : Text) where
  -- The failures among fuse.Unmount and the two runs of fusermount, one after the other.
  pub failures : S → ℕ
  failures s =
      let a = system.unmount mount_point s in
      let b = system.run (codes "fusermount" ∷ codes "-u" ∷ mount_point ∷ []) a.1 in
      let c = system.run (codes "fusermount" ∷ codes "-uz" ∷ mount_point ∷ []) b.1 in
      failure a.0 + failure b.0 + failure c.0

  attempted_lem : (s : S) → length (attempt_all system mount_point s).0 ≡ failures s
  unfolding attempt_all run_attempts failures
  attempted_lem s =
      let a = system.unmount mount_point s in
      let b = system.run (codes "fusermount" ∷ codes "-u" ∷ mount_point ∷ []) a.1 in
      let c = system.run (codes "fusermount" ∷ codes "-uz" ∷ mount_point ∷ []) b.1 in
      let first = add_error (λ _. library_failed) a.0 [] in
      length-add_error command_failed c.0 (add_error command_failed b.0 first)
      ∙ ap (λ n. n + failure c.0)
          (length-add_error command_failed b.0 first
            ∙ ap (λ n. n + failure b.0)
                (length-add_error (λ _. library_failed) a.0 [] ∙ zero_add (failure a.0)))

  attempted_iff : (s : S) → ((attempted system mount_point s).0 ≡ ok tt) ↔ (failures s ≢ 2)
  unfolding attempted
  attempted_iff s = decided (failures s) (attempt_all system mount_point s).0 (attempted_lem s)

  -- Where findmnt reports a mount, removing it is reported as a failure exactly when two of the
  -- three attempts fail: with all three failing it returns no error.
  pub attempt_unmount_lem :
      (s : S)
      → (mount_exists system mount_point s).0 ≡ ok true
      → ((attempt_unmount_if_necessary system mount_point s).0 ≡ ok tt)
        ↔ (failures (mount_exists system mount_point s).1 ≢ 2)
  unfolding attempt_unmount_if_necessary ◌>>=◌
  attempt_unmount_lem s exists = rw exists (attempted_iff (mount_exists system mount_point s).1)

  ensured :
      ((s : S)
        → (system.mkdir_all mount_point s).0 ≡ ok tt
        → (system.stat mount_point (system.mkdir_all mount_point s).1).0 ≡ ok true)
      → (r : Result StatError Bool) (s : S) → (system.stat mount_point s).0 ≡ r
      → (ensure_on system mount_point r s).0 ≡ ok tt
      → (system.stat mount_point (ensure_on system mount_point r s).1).0 ≡ ok true
  unfolding ensure_on
  ensured made (ok true) s same done = same
  ensured made (ok false) s same done = cc
  ensured made (err stat_failed) s same done = cc
  ensured made (err not_there) s same done =
      made s (made_ok (system.mkdir_all mount_point s).0 done)

  -- Where EnsureMountPoint returns without an error, os.Stat finds a directory at the mount point,
  -- given that it does after os.MkdirAll has succeeded and that os.Stat changes nothing it reports.
  ensure_mount_point_lem :
      ((s : S)
        → (system.mkdir_all mount_point s).0 ≡ ok tt
        → (system.stat mount_point (system.mkdir_all mount_point s).1).0 ≡ ok true)
      → ((s : S)
          → (system.stat mount_point (system.stat mount_point s).1).0
            ≡ (system.stat mount_point s).0)
      → (s : S) → (ensure_mount_point system mount_point s).0 ≡ ok tt
      → (system.stat mount_point (ensure_mount_point system mount_point s).1).0 ≡ ok true
  unfolding ensure_mount_point
  ensure_mount_point_lem made stable s done =
      let now = system.stat mount_point s in ensured made now.0 now.1 (stable s) done
