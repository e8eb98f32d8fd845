-- ===== src/Pulumi/Configs/Diffs.antt =====
-- What ConfigResource.Diff of cmd/pulumi/main.go reports.
use configfs.Prelude.{arith, ◌≡◌, refl, ap, ◌↔◌, Bool, true, false, not, ◌++◌, keep, any, some}
use configfs.Strings.{Text, codes, text_eq}
use configfs.Strings.Laws.{text_eq_refl, eq_of_text_eq, text_eq_iff}
use configfs.Proto.{Config}
use configfs.Store.Acls.{is_recognised}
use configfs.Pulumi.Acls.{acls_to_proto, acls_from_proto, acls_equal, validate_acls}
use configfs.Pulumi.Acls.Laws.{acls_equal_iff, acls_round_trip}
use configfs.Pulumi.Resource.{
  DiffKind, update, update_replace, DetailedDiff, difference, has_changes,
}
use configfs.Pulumi.Configs.{
  ConfigArgs, config_from_args, state_from_args, args_from_config, content_or_empty, diff_config,
}

-- A difference forces a replacement.
unfoldable pub replaces : DetailedDiff → Bool
replaces d = any (λ (p : Text × DiffKind). elim p.1 [ update ↦ false | update_replace ↦ true ]) d

-- the comparisons, one after the other
changes_of :
    (a b c d : Bool) (n p k l : Text)
    → (has_changes (
          difference (not a) n update_replace
          ++ difference (not b) p update_replace
          ++ difference (not c) k update
          ++ difference (not d) l update)
        ≡ false)
      ↔ ((a ≡ true) × (b ≡ true) × (c ≡ true) × (d ≡ true))
unfolding has_changes
changes_of false b c d n p k l = (λ h. ground arith, λ h. ground arith)
changes_of true false c d n p k l = (λ h. ground arith, λ h. ground arith)
changes_of true true false d n p k l = (λ h. ground arith, λ h. ground arith)
changes_of true true true false n p k l = (λ h. ground arith, λ h. ground arith)
changes_of true true true true n p k l = (λ h. (refl, refl, refl, refl), λ h. refl)

replaces_of :
    (a b c d : Bool) (n p k l : Text)
    → (replaces (
          difference (not a) n update_replace
          ++ difference (not b) p update_replace
          ++ difference (not c) k update
          ++ difference (not d) l update)
        ≡ false)
      ↔ ((a ≡ true) × (b ≡ true))
unfolding replaces any
replaces_of false b c d n p k l = (λ h. ground arith, λ h. ground arith)
replaces_of true false c d n p k l = (λ h. ground arith, λ h. ground arith)
replaces_of true true true true n p k l = (λ h. (refl, refl), λ h. refl)
replaces_of true true true false n p k l = (λ h. (refl, refl), λ h. refl)
replaces_of true true false true n p k l = (λ h. (refl, refl), λ h. refl)
replaces_of true true false false n p k l = (λ h. (refl, refl), λ h. refl)

-- Against the state that Create or Update has kept of earlier arguments, Diff reports no changes
-- exactly when the new arguments send the same config, and none that replaces the resource exactly
-- when they send the same name and path.
pub diff_config_iff :
    (id : Text) (new old : ConfigArgs)
    → ((has_changes (diff_config new (state_from_args old)) ≡ false)
        ↔ (config_from_args id new ≡ config_from_args id old))
      × ((replaces (diff_config new (state_from_args old)) ≡ false)
          ↔ ((new.name ≡ old.name) × (new.path ≡ old.path)))
unfolding diff_config state_from_args config_from_args
diff_config_iff id new old =
    let (same, none_of) =
      changes_of (text_eq new.name old.name) (text_eq new.path old.path)
        (text_eq new.content old.content) (acls_equal new.acls old.acls) (codes "name")
        (codes "path") (codes "content") (codes "acls") in
    let (kept, stay) =
      replaces_of (text_eq new.name old.name) (text_eq new.path old.path)
        (text_eq new.content old.content) (acls_equal new.acls old.acls) (codes "name")
        (codes "path") (codes "content") (codes "acls") in
    (
      (
        λ h.
            let (n, p, c, a) = same h in
            rw
              (
                eq_of_text_eq new.name old.name n,
                eq_of_text_eq new.path old.path p,
                eq_of_text_eq new.content old.content c,
                (acls_equal_iff new.acls old.acls).0 a,
              )
              refl,
        λ e. none_of (
          (text_eq_iff new.name old.name).1 (ap (λ (c : Config). c.name) e),
          (text_eq_iff new.path old.path).1 (ap (λ (c : Config). c.path) e),
          (text_eq_iff new.content old.content).1
              (ap (λ (c : Config). content_or_empty c.content) e),
          (acls_equal_iff new.acls old.acls).1 (ap (λ (c : Config). c.acls) e),
        ),
      ),
      (
        λ h.
            let (n, p) = kept h in
            (eq_of_text_eq new.name old.name n, eq_of_text_eq new.path old.path p),
        λ h. stay ((text_eq_iff new.name old.name).1 h.0, (text_eq_iff new.path old.path).1 h.1),
      ),
    )

-- A config that the server has stored as the provider sent it, but for the entries without a known
-- level, is read back as arguments that differ from the sent ones exactly when the provider's check
-- of the list does not accept it: no difference remains of an accepted resource.
pub diff_config-stored :
    (sent : ConfigArgs) (stored : Config)
    → stored.name ≡ sent.name
    → stored.path ≡ sent.path
    → stored.content ≡ some sent.content
    → stored.acls ≡ keep is_recognised (acls_to_proto sent.acls)
    → (has_changes (diff_config (args_from_config stored) (state_from_args sent)) ≡ false)
      ↔ (validate_acls sent.acls ≡ true)
unfolding diff_config state_from_args args_from_config
diff_config-stored sent stored n p c a =
    let (same, none_of) =
      changes_of (text_eq stored.name sent.name) (text_eq stored.path sent.path)
        (text_eq (content_or_empty stored.content) sent.content)
        (acls_equal (acls_from_proto stored.acls) sent.acls) (codes "name") (codes "path")
        (codes "content") (codes "acls") in
    let (accepted, equal) = acls_round_trip sent.acls in
    (
      λ h. let (_, _, _, e) = same h in accepted (rw a at e),
      λ v. none_of (
        (text_eq_iff stored.name sent.name).1 n,
        (text_eq_iff stored.path sent.path).1 p,
        (rw c (text_eq_refl sent.content)),
        (rw a (equal v)),
      ),
    )
