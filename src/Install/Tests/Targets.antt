-- ===== src/Install/Tests/Targets.antt =====
-- Runs of the theorems on the validation and the preparation of a target.
use virt_ue_sensing.Base.{
  false, Bool-cases, ◌≡◌, refl, ap, Bool, ◌∷◌, inl, inr, Bool-cases, sym, true, false, not, some,
  [], All, arith, nat_Eq,
}
use mathlib.Core.Path.{sym, subst}
use virt_ue_sensing.Base.Text.{Text, codes, text_eq, text_Eq}
use virt_ue_sensing.Base.Dict.{
  contains, get, put, remove, get-put, get-put_self, get-remove, contains,
}
use virt_ue_sensing.Base.Exec.{ok}
use virt_ue_sensing.Install.{entry}
use virt_ue_sensing.Install.Place.{prep_target, prepared_keys}
use virt_ue_sensing.Install.Place.Fresh.{
  Named, Directories, Apart, Fresh, path_of, prep_target-Fresh,
}
use virt_ue_sensing.Install.Tests.{Disk, disk_fs, image}

-- Two paths that are not the same; none of the image's directories lies in another.
abbrev differ : Text → Text → Bool
unfolding text_eq
differ p q = not (text_eq p q)

abbrev Cleared : Text → Disk → Type 0
unfolding get
Cleared p s = get p s ≡ some []

contains-remove : (p : Text) (s : Disk) → contains p (remove p s) ≡ false
unfolding contains remove
contains-remove p [] = refl
contains-remove p ((k, v) ∷ s) = elim (Bool-cases (text_eq k p)) [
  | inl same ↦ ground (arith, same, contains-remove p s)
  | inr other ↦ ground (arith, other, contains-remove p s)
]

-- Where `makedirs` succeeds, it has put an empty directory.
made : (p : Text) (s t : Disk) → disk_fs.makedirs p s ≡ (ok tt, t) → t ≡ put p [] s
unfolding disk_fs
made p s t e = elim (Bool-cases (contains p s)) [
  | inl there ↦ absurd (ground (arith, e, there))
  | inr free ↦ ground (arith, e, free)
]

disk_laws : Directories disk_fs differ Cleared
unfolding disk_fs differ Cleared
disk_laws = record {
  rmtree_ok = λ p s there. (remove p s, refl, contains-remove p s);
  makedirs_ok = λ p s free. (put p [] s, rw free refl);
  makedirs_new = λ p s t e.
      subst (λ u. get p u ≡ some []) {x = put p [] s} {y = t} (sym (made p s t e))
        (get-put_self p [] s);
  makedirs_keeps = λ p q s t e a h.
      subst (λ u. get p u ≡ some []) {x = put q [] s} {y = t} (sym (made q s t e))
        (ground (arith, get-put q p [] s, h));
  rmtree_keeps = λ p q s t e a h.
      subst (λ u. get p u ≡ some []) {x = remove q s} {y = t} (ap (λ x. x.1) e)
        (ground (arith, get-remove q p s, h, text_Eq.beq_iff q p, text_Eq.beq_iff p q));
}

apart_at :
    (k j a b : Text)
    → path_of disk_fs.join image k ≡ ok a
    → path_of disk_fs.join image j ≡ ok b
    → differ a b ≡ true
    → (p q : Text) → path_of disk_fs.join image k ≡ ok p
    → path_of disk_fs.join image j ≡ ok q
    → differ p q ≡ true
apart_at k j a b ea eb d p q ep eq =
    subst (λ x. differ x q ≡ true) {x = a} {y = p} (cc)
      (subst (λ y. differ a y ≡ true) {x = b} {y = q} (cc) d)

image-Apart : Apart disk_fs.join differ image prepared_keys
unfolding entry text_eq disk_fs differ
image-Apart = (
  (
    apart_at (codes "sensors_directory") (codes "requirements_directory") (codes "demo/sensors")
        (codes "demo/requirements") refl refl refl,
    (
      apart_at (codes "sensors_directory") (codes "startup_scripts_directory")
          (codes "demo/sensors") (codes "demo/startup") refl refl refl,
      (
        apart_at (codes "sensors_directory") (codes "library_directory") (codes "demo/sensors")
            (codes "demo/libraries") refl refl refl,
        (
          apart_at (codes "sensors_directory") (codes "kernel_mod_directory") (codes "demo/sensors")
              (codes "demo/mods") refl refl refl,
          tt,
        ),
      ),
    ),
  ),
  (
    (
      apart_at (codes "requirements_directory") (codes "startup_scripts_directory")
          (codes "demo/requirements") (codes "demo/startup") refl refl refl,
      (
        apart_at (codes "requirements_directory") (codes "library_directory")
            (codes "demo/requirements") (codes "demo/libraries") refl refl refl,
        (
          apart_at (codes "requirements_directory") (codes "kernel_mod_directory")
              (codes "demo/requirements") (codes "demo/mods") refl refl refl,
          tt,
        ),
      ),
    ),
    (
      (
        apart_at (codes "startup_scripts_directory") (codes "library_directory")
            (codes "demo/startup") (codes "demo/libraries") refl refl refl,
        (
          apart_at (codes "startup_scripts_directory") (codes "kernel_mod_directory")
              (codes "demo/startup") (codes "demo/mods") refl refl refl,
          tt,
        ),
      ),
      (
        (
          apart_at (codes "library_directory") (codes "kernel_mod_directory")
              (codes "demo/libraries") (codes "demo/mods") refl refl refl,
          tt,
        ),
        (tt, tt),
      ),
    ),
  ),
)

image-Named : All (Named image) prepared_keys
unfolding entry text_eq
image-Named = (
  (codes "sensors", refl),
  (
    (codes "requirements", refl),
    ((codes "startup", refl), ((codes "libraries", refl), ((codes "mods", refl), tt))),
  ),
)

-- A disk on which one of the directories is there already.
abbrev used : Disk
used = (codes "demo/mods", codes "old") ∷ []

prep_target-Fresh_example :
    (t : Disk) × (prep_target disk_fs image used ≡ (ok tt, t))
    × All (Fresh disk_fs differ Cleared disk_laws image t) prepared_keys
prep_target-Fresh_example =
    prep_target-Fresh disk_fs differ Cleared disk_laws image used image-Named image-Apart
