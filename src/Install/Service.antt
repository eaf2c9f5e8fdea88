-- ===== src/Install/Service.antt =====
-- `install_sensor_service`: the directories, configuration files and ports of the Windows service.
pub mod Ports
use virt_ue_sensing.Base.{
  ℕ, suc, ◌+◌, ◌≡◌, Bool, true, false, Option, some, none, List, [], ◌∷◌, ◌++◌, if◌then◌else◌,
}
use virt_ue_sensing.Base.Text.{Text, codes}
use virt_ue_sensing.Base.Number.{to_decimal}
use virt_ue_sensing.Base.Exec.{
  Result, ok, err, or_raise, then_result, Exec, pure, lift, gets, modify, ◌>>=◌, ◌>>◌,
}
use virt_ue_sensing.Install.{Item, Found, Fs, entry, iterate, field_is, text_of_item, each}
use virt_ue_sensing.Install.Place.{items_of, abs_join}
use virt_ue_sensing.Install.Scripts.{collect}

-- The globals of the file.
abbrev pub apihost : Text
apihost = codes "sensing-api.savior.internal"

abbrev pub default_debug_level : Text
default_debug_level = codes "DEBUG"

abbrev pub port_list : List ℕ
port_list = 9555 ∷ 17141 ∷ 17504 ∷ 11000 ∷ []

-- The disk, and the global counter of ports, which starts at 11020.
pub record Installer {ℓ} (S : Type ℓ) : Type ℓ where
  pub disk : S
  pub base_port_no : ℕ

abbrev pub first_port : ℕ
first_port = 11020

-- A step that leaves the counter as it is.
abbrev pub on_disk {ℓ κ} : {S : Type ℓ} {A : Type κ} → Exec S A → Exec (Installer S) A
on_disk m s = let (r, d) = m s.disk in (r, record s { disk = d })

-- `CONFIG_FILE_TEMPLATE.format(...)`
unfoldable pub config_file : Text → Text → ℕ → Text
unfolding to_decimal
config_file sysdrv sensorname sensorport =
    let certs = sysdrv ++ (codes "WinVirtUE\\certs\\" ++ sensorname) in
    codes "\n[parameters]\npublic_key_path="
    ++ (certs
        ++ (codes "\\rsa_key.pub\nprivate_key_path="
            ++ (certs
                ++ (codes "\\rsa_key\nca_key_path="
                    ++ (certs
                        ++ (codes "\\\napi_host="
                            ++ (apihost
                                ++ (codes "\nsensor_port="
                                    ++ (to_decimal sensorport
                                        ++ (codes "\n[runtime]\ndbglvl="
                                            ++ (default_debug_level ++ codes "\n")))))))))))

-- `netsh`, whose return code is only printed.
module _ {ℓ} {S : Type ℓ} (fs : Fs S) (open_port : ℕ → Exec S (Unit {0})) where
  abbrev pub ensure_dir : Text → Exec S (Unit {0})
  ensure_dir path = do there ← gets (fs.exists path); if there then pure tt else fs.makedirs path

  -- The files of one sensor, up to the opening of its port.
  unfoldable pub configure_at : Text → Text → Text → ℕ → Exec S (Unit {0})
  configure_at sysdrv svc_dir name portno = do
    ensure_dir (fs.join (fs.join svc_dir (codes "certs")) name)
    fs.write (fs.join (fs.join svc_dir (codes "config")) (name ++ codes ".cfg"))
        (config_file sysdrv name portno)
    open_port portno

  -- The port is the counter's, which goes up by one.
  unfoldable pub configure_sensor : Text → Text → Item → Exec (Installer S) (Unit {0})
  unfolding configure_at
  configure_sensor sysdrv svc_dir item = do
    name ← lift (text_of_item item)
    portno ← gets (λ s. s.base_port_no)
    on_disk (ensure_dir (fs.join (fs.join svc_dir (codes "certs")) name))
    on_disk (
        fs.write (fs.join (fs.join svc_dir (codes "config")) (name ++ codes ".cfg"))
          (config_file sysdrv name portno))
    modify (λ s. record s { base_port_no = s.base_port_no + 1 })
    on_disk (open_port portno)

  unfoldable pub configure_service : Text → Found → Text → Exec (Installer S) (Unit {0})
  unfolding configure_sensor
  configure_service sysdrv target svc_dir = do
    sensors ← lift (items_of (codes "sensors") target.doc)
    on_disk (ensure_dir (fs.join svc_dir (codes "config")))
    on_disk (ensure_dir (fs.join svc_dir (codes "logs")))
    on_disk (each open_port port_list)
    each (configure_sensor sysdrv svc_dir) sensors

  one_service : Text → Found → Item → Result (List Text)
  one_service svc_root target item = then_result (entry (codes "os") target.doc) λ os.
      if field_is (codes "Windows") os
      then then_result (text_of_item item) (λ dir. ok (fs.join svc_root dir ∷ []))
      else ok []

  -- `svc_dirs`, with none for a target of another system than Windows.
  unfoldable pub service_dirs : Found → Result (List Text)
  unfolding one_service
  service_dirs target =
      then_result (items_of (codes "service_directories") target.doc)
        (collect (one_service (abs_join fs target.root (codes "sensor_service")) target))

  unfoldable pub install_sensor_service : Option Text → Text → Found → Exec (Installer S) (Unit {0})
  unfolding configure_service service_dirs
  install_sensor_service system_drive sep target = do
    lift (entry (codes "sensors") target.doc)
    svc_dirs ← lift (service_dirs target)
    each (configure_service (elim system_drive [ some d ↦ d | none ↦ codes "C" ] ++ sep) target)
        svc_dirs
