-- ===== src/Install/Run.antt =====
-- `install_sensors_in_target` and the main program of bin/install_sensors.py.
pub mod Validated
use virt_ue_sensing.Base.{
  ℕ, ◌≡◌, refl, Bool, true, false, Option, some, none, List, [], ◌∷◌, ◌&&◌, if◌then◌else◌,
}
use virt_ue_sensing.Base.Text.{Text, codes, text_Eq}
use virt_ue_sensing.Base.Members.{mem}
use virt_ue_sensing.Base.Exec.{
  Result, ok, err, then_result, Exec, pure, raise, lift, gets, ◌>>=◌, ◌>>◌,
}
use virt_ue_sensing.Install.{
  Item, Doc, Found, Host, Fs, entry, has_key, field_is, is_windows, is_win32, each,
}
use virt_ue_sensing.Install.Find.{find_sensors, find_kmods, find_targets}
use virt_ue_sensing.Install.Check.{
  Problem, index_by_name, validate_kmod, validate_sensor, validate_target,
}
use virt_ue_sensing.Install.Place.{
  items_of, prep_target, install_kernel_module, install_sensor, install_ntfltmgr,
  install_sensor_wrapper,
}
use virt_ue_sensing.Install.Scripts.{
  named, create_requirements_master, create_support_library_install_script,
  create_kernel_module_install_script, create_sensor_startup_master, create_apt_get_script,
}
use virt_ue_sensing.Install.Service.{Installer, on_disk, install_sensor_service}

-- Where the program runs, what it was started with, and the paths in it.
pub record Setting : Type 0 where
  pub host : Host
  pub system_drive : Option Text
  pub sep : Text
  pub skip_sensors : List Text
  pub skip_modules : List Text
  pub skip_targets : List Text
  pub install : Bool

abbrev pub sensor_dir : Text
sensor_dir = codes "./sensors"

abbrev pub targets_dir : Text
targets_dir = codes "./targets"

abbrev pub wrapper_dir : Text
wrapper_dir = codes "./sensors/wrapper"

abbrev pub ntfltmgr_dir : Text
ntfltmgr_dir = codes "./sensors/ntfltmgr"

abbrev pub kernel_dir : Text
kernel_dir = codes "./"

-- `"os" in target["target"] and target["target"]["os"] == "Windows"`
abbrev pub targets_windows : Doc → Bool
targets_windows d = elim (entry (codes "os") d) [
  | ok os ↦ field_is (codes "Windows") os
  | err _ ↦ false
]

-- The version that is printed beside a sensor or a module.
abbrev pub shown_version : Found → Result (Unit {0})
shown_version x = then_result (entry (codes "version") x.doc) λ _. ok tt

abbrev pub shown_name : Found → Result (Unit {0})
shown_name x = ok tt

-- Without an error the entry is included; `none` is `sys.exit(1)`.
abbrev pub included :
    Found → List Problem → Result (Option (List Found)) → Result (Option (List Found))
included x [] rest =
    then_result rest λ found. ok (elim found [ some xs ↦ some (x ∷ xs) | none ↦ none ])
included x (_ ∷ _) rest = ok none

module _ (shown : Found → Result (Unit {0})) (skip : List Text)
    (validate : Found → Result (List Problem)) where
  -- The three loops that skip or validate what was found.
  unfoldable pub include : List Found → Result (Option (List Found))
  include [] = ok (some [])
  include (x ∷ xs) =
      let rest = include xs in
      then_result (shown x) λ _.
        if mem x.name skip then rest else then_result (validate x) λ errors. included x errors rest

-- What the three loops give.
pub record Included : Type 0 where
  pub sensors : List Found
  pub kmods : List Found
  pub targets : List Found

abbrev pub if_some {ℓ κ} :
    {A : Type ℓ} {B : Type κ} → Result (Option A) → (A → Result (Option B)) → Result (Option B)
if_some (ok (some a)) f = f a
if_some (ok none) f = ok none
if_some (err e) f = err e

module _ {ℓ} {S : Type ℓ} (fs : Fs S) (open_port : ℕ → Exec S (Unit {0}))
    (set_list : List Text → List Text) (set_trace : Result (Unit {0}))
    (load : Text → S → Result Doc) (setting : Setting) where
  unfoldable pub install_windows : Found → Exec (Installer S) (Unit {0})
  install_windows target =
      if is_win32 setting.host && targets_windows target.doc
      then on_disk (install_ntfltmgr fs target ntfltmgr_dir)
        >> install_sensor_service fs open_port setting.system_drive setting.sep target
      else pure tt

  install_named_kmod : Found → List Found → Item → Exec S (Unit {0})
  install_named_kmod target kmods item = do
    kmod ← lift (named (index_by_name kmods) item)
    install_kernel_module fs target kmod

  install_named_sensor : Found → List Found → Item → Exec S (Unit {0})
  install_named_sensor target sensors item = do
    sensor ← lift (named (index_by_name sensors) item)
    install_sensor fs setting.host target sensor

  -- The files that are written when everything is in place.
  unfoldable pub finish : Found → List Found → List Found → Exec S (Unit {0})
  finish target kmods sensors = do
    create_requirements_master fs target
    create_support_library_install_script fs target
    create_kernel_module_install_script fs target kmods
    create_sensor_startup_master fs target
    create_apt_get_script fs set_list target sensors kmods

  unfoldable pub install_sensors_in_target :
      List Found → List Found → Found → Exec (Installer S) (Unit {0})
  unfolding install_windows install_named_kmod install_named_sensor finish
  install_sensors_in_target kmods sensors target = do
    required ← lift (items_of (codes "sensors") target.doc)
    on_disk (prep_target fs target)
    modules ← lift (items_of (codes "kernel_modules") target.doc)
    on_disk (each (install_named_kmod target kmods) modules)
    on_disk (install_sensor_wrapper fs target wrapper_dir)
    install_windows target
    on_disk (each (install_named_sensor target sensors) required)
    on_disk (finish target kmods sensors)

  unfoldable pub included_sensors : S → Result (Option (List Found))
  unfolding include
  included_sensors s =
      then_result (find_sensors (λ p. load p s) fs.join (fs.walk (fs.abspath sensor_dir) s)) (
        include shown_version setting.skip_sensors (
          validate_sensor fs.join (λ p. fs.exists p s) (λ p. fs.isfile p s) set_trace setting.host))

  unfoldable pub included_kmods : S → Result (Option (List Found))
  unfolding include
  included_kmods s = then_result (find_kmods (λ p. load p s) fs.join (fs.walk kernel_dir s)) (
      include shown_version setting.skip_modules
        (validate_kmod fs.join (λ p. fs.exists p s) (λ p. fs.isfile p s)))

  unfoldable pub included_targets : List Found → List Found → S → Result (Option (List Found))
  unfolding include
  included_targets sensors kmods s =
      then_result (find_targets (λ p. load p s) fs.join (fs.walk targets_dir s)) (
        include shown_name setting.skip_targets
          (λ target. validate_target setting.host target sensors kmods))

  unfoldable pub validate_all : S → Result (Option Included)
  unfolding included_sensors included_kmods included_targets
  validate_all s = if_some (included_sensors s) λ sensors. if_some (included_kmods s) λ kmods.
      if_some (included_targets sensors kmods s)
        λ targets. ok (some (record { sensors = sensors; kmods = kmods; targets = targets }))

  -- The installation in each target, after the validation of all; `false` is `sys.exit(1)`.
  install_all : Result (Option Included) → Exec (Installer S) Bool
  unfolding install_sensors_in_target
  install_all (err e) = raise e
  install_all (ok none) = pure false
  install_all (ok (some x)) =
      if setting.install
      then each (install_sensors_in_target x.kmods x.sensors) x.targets >> pure true
      else pure true

  unfoldable pub main : Exec (Installer S) Bool
  unfolding install_all validate_all
  main s = install_all (validate_all s.disk) s
