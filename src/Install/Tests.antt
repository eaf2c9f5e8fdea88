-- ===== src/Install/Tests.antt =====
-- A disk and a target image with one sensor and one kernel module, for the runs of the theorems.
mod Targets
mod Scripts
mod Programs
use virt_ue_sensing.Base.{
  ℕ, ◌+◌, ◌≡◌, refl, ap, ◌∙◌, Bool, true, false, not, some, none, Option, List, [], ◌∷◌, ◌++◌, ◌⊎◌,
  All, map, length, arith, if◌then◌else◌, nat_Eq,
}
use mathlib.Core.Path.{subst}
use virt_ue_sensing.Base.Text.{Text, codes, text_eq, text_Eq}
use virt_ue_sensing.Base.Dict.{
  Dict, get, put, remove, contains, get-put, get-put_self, get-put_ne, get-remove,
}
use virt_ue_sensing.Base.Members.{mem, Distinct}
use virt_ue_sensing.Base.Split.{split_on, has_char}
use virt_ue_sensing.Base.Fallible.{◌>>=◌}
use virt_ue_sensing.Base.Exec.{Result, ok, err, Exec, then_result, key_error, os_error}
use virt_ue_sensing.Install.{
  Item, text_item, Field, text_field, list_field, Doc, Found, Host, Fs, Visit, entry, iterate, each,
  field_is, is_windows, has_key,
}
use virt_ue_sensing.Install.Check.{validate_target, in_index, skipped, index_by_name}
use virt_ue_sensing.Install.Check.Required.{IsKnown, validate_target-IsKnown}
use virt_ue_sensing.Install.Place.{prep_target, prepared_keys, items_of, abs_join, target_dir}
use virt_ue_sensing.Install.Place.Fresh.{Directories, Apart, Fresh, path_of, prep_target-Fresh}
use virt_ue_sensing.Install.Scripts.{
  create_requirements_master, write_apt, create_kernel_module_install_script, written, step_text,
  shell_of, shebang, install_script, collect, named, kmod_steps, build_step, BuildStep,
}
use virt_ue_sensing.Install.Scripts.Lines.{create_requirements_master-lines, write_apt-words}
use virt_ue_sensing.Install.Service.{Installer, configure_at, configure_sensor, port_list}
use virt_ue_sensing.Install.Service.Ports.{
  with_ports, ports_of, configure_pair, configure_each-ports,
}
use virt_ue_sensing.Install.Run.{Setting, Included, validate_all, main}
use virt_ue_sensing.Install.Run.Validated.{Installable, main-Installable}

-- A disk of files by path, a directory being a path with no content.
abbrev pub Disk : Type 0
Disk = Dict Text Text

unfoldable pub disk_fs : Fs Disk
unfolding get put remove contains
disk_fs = record {
  join = λ a b. a ++ codes "/" ++ b;
  abspath = λ p. p;
  dirname = λ p. p;
  basename = λ p. p;
  relpath = λ p q. p;
  exists = contains;
  isfile = contains;
  walk = λ p s.
      record {
        root = p;
        files = codes "kernel_module.json" ∷ codes "sensor.json" ∷ codes "target.json" ∷ [];
      }
      ∷ [];
  listdir = λ p s. (ok (codes "lsof.txt" ∷ codes "ps.txt" ∷ []), s);
  rmtree = λ p s. (ok tt, remove p s);
  makedirs = λ p s. if contains p s then (err os_error, s) else (ok tt, put p [] s);
  copy = λ p q s. (ok tt, put q (codes "copied") s);
  copytree = λ p q s. (ok tt, put q (codes "copied") s);
  write = λ p t s. (ok tt, put p t s);
}

abbrev pub image : Found
image = record {
  root = codes "demo";
  name = codes "demo-target";
  doc = record {
    name = some (codes "demo-target");
    fields =
        (codes "os", text_field (codes "Linux"))
        ∷ (codes "sensors", list_field (text_item (codes "lsof") ∷ []))
        ∷ (codes "kernel_modules", list_field (text_item (codes "ps_mod") ∷ []))
        ∷ (codes "sensors_directory", text_field (codes "sensors"))
        ∷ (codes "requirements_directory", text_field (codes "requirements"))
        ∷ (codes "startup_scripts_directory", text_field (codes "startup"))
        ∷ (codes "library_directory", text_field (codes "libraries"))
        ∷ (codes "kernel_mod_directory", text_field (codes "mods"))
        ∷ [];
  };
}

abbrev pub lsof_sensor : Found
lsof_sensor = record {
  root = codes "sensors/lsof";
  name = codes "lsof";
  doc = record { name = some (codes "lsof"); fields = [] };
}

abbrev pub ps_mod : Found
ps_mod = record {
  root = codes "mods/ps";
  name = codes "ps_mod";
  doc = record {
    name = some (codes "ps_mod");
    fields =
        (codes "target_folder", text_field (codes "ps"))
        ∷ (codes "install", list_field (text_item (codes "install.sh") ∷ []))
        ∷ [];
  };
}

abbrev pub linux : Host
linux = record { system = codes "Linux"; platform = codes "linux2" }

-- A list of the members of a set.
unfoldable pub dedup : List Text → List Text
dedup [] = []
dedup (x ∷ xs) = let rest = dedup xs in if mem x rest then rest else x ∷ rest

pub mem-dedup : (w : Text) (ws : List Text) → mem w (dedup ws) ≡ mem w ws
unfolding dedup
mem-dedup w [] = refl
mem-dedup w (x ∷ xs) = ground (arith, mem-dedup w xs, text_Eq.beq_iff x w)

pub dedup-Distinct : (ws : List Text) → Distinct (dedup ws)
unfolding dedup
dedup-Distinct [] = tt
dedup-Distinct (x ∷ xs) = ground (arith, dedup-Distinct xs)

abbrev pub netsh : ℕ → Exec Disk (Unit {0})
netsh n s = (ok tt, s)
