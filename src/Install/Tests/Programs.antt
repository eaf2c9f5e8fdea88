-- ===== src/Install/Tests/Programs.antt =====
-- Runs of the theorems on the service's ports and the main program.
use virt_ue_sensing.Base.{
  ◌+◌, ◌≡◌, refl, true, false, some, none, List, [], ◌∷◌, ◌⊎◌, All, map, length, arith,
  if◌then◌else◌, nat_Eq,
}
use virt_ue_sensing.Base.Text.{Text, codes, text_eq, text_Eq}
use virt_ue_sensing.Base.Members.{mem, Distinct}
use virt_ue_sensing.Base.Exec.{Result, ok}
use virt_ue_sensing.Install.{text_item, text_field, list_field, Doc, each}
use virt_ue_sensing.Install.Service.{configure_at, configure_sensor, port_list}
use virt_ue_sensing.Install.Service.Ports.{
  with_ports, ports_of, configure_pair, configure_each-ports,
}
use virt_ue_sensing.Install.Run.{Setting, Included, validate_all, main}
use virt_ue_sensing.Install.Run.Validated.{Installable, main-Installable}
use virt_ue_sensing.Install.Tests.{Disk, disk_fs, image, linux, dedup, netsh}

abbrev two_sensors : List Text
two_sensors = codes "lsof" ∷ codes "ps" ∷ []

abbrev configured : Disk
configured =
    (each (configure_pair disk_fs netsh (codes "C\\") (codes "svc")) (with_ports 11020 two_sensors)
      []).1

configure_each-ports_example :
    (each
        (configure_sensor disk_fs netsh (codes "C\\") (codes "svc"))
        (map text_item two_sensors)
        (record { disk = []; base_port_no = 11020 })
      ≡ (ok tt, record { disk = configured; base_port_no = 11020 + length two_sensors }))
    × Distinct (ports_of (with_ports 11020 two_sensors))
    × All (λ p. mem p port_list ≡ false) (ports_of (with_ports 11020 two_sensors))
unfolding disk_fs configure_at text_eq
configure_each-ports_example =
    configure_each-ports disk_fs netsh (codes "C\\") (codes "svc") two_sensors 11020 [] configured
      refl (omega arith) (omega arith)

abbrev nothing_skipped : Setting
nothing_skipped = record {
  host = linux;
  system_drive = none;
  sep = codes "/";
  skip_sensors = [];
  skip_modules = [];
  skip_targets = [];
  install = true;
}

abbrev sensor_doc : Doc
sensor_doc = record {
  name = some (codes "lsof");
  fields =
      (codes "version", text_field (codes "1"))
      ∷ (codes "target_folder", text_field (codes "lsof"))
      ∷ (codes "startup_script", text_field [])
      ∷ (codes "requirements_files", list_field [])
      ∷ (codes "files", list_field [])
      ∷ (codes "required_sub_directories", list_field [])
      ∷ (codes "apt-get", list_field (text_item (codes "lsof") ∷ []))
      ∷ [];
}

abbrev kmod_doc : Doc
kmod_doc = record {
  name = some (codes "ps_mod");
  fields =
      (codes "version", text_field (codes "1"))
      ∷ (codes "target_folder", text_field (codes "ps"))
      ∷ (codes "include", list_field [])
      ∷ (codes "install", list_field [])
      ∷ (codes "apt-get", list_field [])
      ∷ [];
}

-- The definition in each of the three places.
load_doc : Text → Disk → Result Doc
unfolding text_eq
load_doc p s = ok (
    if text_eq p (codes "./sensors/sensor.json")
    then sensor_doc
    else if text_eq p (codes ".//kernel_module.json")
    then kmod_doc
    else image.doc)

main-Installable_example :
    ((main disk_fs netsh dedup
        (ok tt)
        load_doc
        nothing_skipped
        (record { disk = []; base_port_no = 11020 })).1
      ≡ record { disk = []; base_port_no = 11020 })
    ⊎ ((x : Included) × (validate_all disk_fs netsh dedup (ok tt) load_doc nothing_skipped []
          ≡ ok (some x))
        × (nothing_skipped.install ≡ true)
        × All (Installable disk_fs netsh dedup (ok tt) load_doc nothing_skipped [] x) x.targets)
main-Installable_example =
    main-Installable disk_fs netsh dedup (ok tt) load_doc nothing_skipped [] 11020
