-- ===== src/Install/Scripts.antt =====
-- The files that are written behind the installation: `create_requirements_master`,
-- `create_support_library_install_script`, `create_kernel_module_install_script`,
-- `create_sensor_startup_master` and `create_apt_get_script`.
pub mod Lines
use virt_ue_sensing.Base.{
  ℕ, ◌≡◌, Bool, true, false, Option, some, none, List, [], ◌∷◌, ◌++◌, map, if◌then◌else◌,
}
use virt_ue_sensing.Base.Text.{Text, codes, text_Eq}
use virt_ue_sensing.Base.Members.{mem}
use virt_ue_sensing.Base.Split.{join_with}
use virt_ue_sensing.Base.Dict.{Dict, get}
use virt_ue_sensing.Base.Exec.{
  Result, ok, err, or_raise, then_result, Exec, pure, raise, lift, gets, ◌>>=◌, ◌>>◌, key_error,
  type_error,
}
use virt_ue_sensing.Install.{
  Item, text_item, dict_item, scalar_item, Field, list_field, text_field, dict_field, scalar_field,
  Doc, Found, Fs, Visit, entry, iterate, field_is, text_of_item, each,
}
use virt_ue_sensing.Install.Check.{index_by_name}
use virt_ue_sensing.Install.Place.{path_entry, items_of, abs_join, target_dir}

-- One line for each file.
abbrev pub written {ℓ} : {A : Type ℓ} → (A → Text) → List A → Text
written f [] = []
written f (x ∷ xs) = f x ++ written f xs

abbrev pub requirement_line : Text → Text
requirement_line file = codes "-r " ++ (file ++ codes "\n")

abbrev pub startup_line : Text → Text
startup_line script = codes "/opt/sensor_startup/" ++ (script ++ codes " &\n")

abbrev pub pip_line : Text → Text
pip_line dir = codes "pip install ./" ++ (dir ++ codes " --upgrade\n")

-- `index[name]` for a name from a definition.
unfoldable pub named {ℓ} : {V : Type ℓ} → Dict Text V → Item → Result V
unfolding get
named d (text_item t) = or_raise key_error (get t d)
named d (dict_item _) = err type_error
named d scalar_item = err key_error

-- A step of the kernel modules' install script: down into the directory, run the file, up again.
pub record BuildStep : Type 0 where
  pub down : Text
  pub file : Text
  pub up : Text

-- The shell that runs the install files; `None` is written as "None".
abbrev pub shell_of : Field → Text
shell_of os =
    if field_is (codes "Windows") os
    then codes "powershell -NoProfile -ExecutionPolicy Bypass"
    else if field_is (codes "Linux") os
    then codes "bash"
    else codes "None"

abbrev pub step_text : Text → BuildStep → Text
step_text shell s =
    codes "cd "
    ++ (s.down
        ++ (codes "\n"
            ++ (shell ++ (codes " ./" ++ (s.file ++ (codes "\ncd " ++ (s.up ++ codes "\n")))))))

abbrev pub install_script : Field → Text
install_script os =
    if field_is (codes "Windows") os then codes "install.ps1" else codes "install.sh"

abbrev pub shebang : Field → Text
shebang os = if field_is (codes "Linux") os then codes "#!/bin/bash\n" else []

abbrev pub collect {ℓ κ} :
    {A : Type ℓ} {B : Type κ} → (A → Result (List B)) → List A → Result (List B)
collect f [] = ok []
collect f (x ∷ xs) = then_result (f x) λ ys. then_result (collect f xs) λ zs. ok (ys ++ zs)

-- The items of a `set`: an object has no hash.
abbrev pub hashable : List Item → Result (Unit {0})
hashable [] = ok tt
hashable (dict_item _ ∷ xs) = err type_error
hashable (_ ∷ xs) = hashable xs

abbrev pub all_texts : List Item → Result (List Text)
all_texts = collect λ item. then_result (text_of_item item) λ t. ok (t ∷ [])

-- `libs += value`, which takes the characters of a text and the keys of an object.
abbrev pub apt_get_of : Found → Result (List Item)
apt_get_of x = items_of (codes "apt-get") x.doc

module _ {ℓ} {S : Type ℓ} (fs : Fs S) where
  unfoldable pub create_requirements_master : Found → Exec S (Unit {0})
  create_requirements_master target = do
    req_dir ← lift (target_dir fs (codes "requirements_directory") target)
    files ← fs.listdir req_dir
    fs.write (abs_join fs req_dir (codes "requirements_master.txt"))
        (written requirement_line files)

  -- The directories with a `setup.py`, relative to the library directory.
  abbrev pub pip_installs : Text → List Visit → List Text
  pip_installs lib_dir [] = []
  pip_installs lib_dir (v ∷ vs) =
      let rest = pip_installs lib_dir vs in
      if mem (codes "setup.py") v.files then fs.relpath v.root lib_dir ∷ rest else rest

  unfoldable pub create_support_library_install_script : Found → Exec S (Unit {0})
  create_support_library_install_script target = do
    lib_dir ← lift (target_dir fs (codes "library_directory") target)
    visits ← gets (fs.walk lib_dir)
    os ← lift (entry (codes "os") target.doc)
    fs.write (abs_join fs lib_dir (install_script os))
        (written pip_line (pip_installs lib_dir visits))

  unfoldable pub build_step : Text → Text → Text → BuildStep
  build_step kmod_root_dir mod_dir name =
      let file = abs_join fs mod_dir name in
      record {
        down = fs.relpath (fs.dirname file) kmod_root_dir;
        file = fs.basename file;
        up = fs.relpath kmod_root_dir (fs.dirname file);
      }

  one_step : Text → Text → Item → Result (List BuildStep)
  unfolding build_step
  one_step kmod_root_dir mod_dir item =
      then_result (text_of_item item) λ name. ok (build_step kmod_root_dir mod_dir name ∷ [])

  unfoldable pub kmod_steps : Text → Found → Result (List BuildStep)
  unfolding one_step
  kmod_steps kmod_root_dir kmod =
      then_result (path_entry (codes "target_folder") kmod.doc) λ folder.
        then_result (items_of (codes "install") kmod.doc)
          (collect (one_step kmod_root_dir (abs_join fs kmod_root_dir folder)))

  unfoldable pub create_kernel_module_install_script : Found → List Found → Exec S (Unit {0})
  unfolding kmod_steps
  create_kernel_module_install_script target kmods = do
    kmod_root_dir ← lift (target_dir fs (codes "kernel_mod_directory") target)
    os ← lift (entry (codes "os") target.doc)
    modules ← lift (items_of (codes "kernel_modules") target.doc)
    steps ← lift (
        collect (λ item. then_result (named (index_by_name kmods) item) (kmod_steps kmod_root_dir))
          modules)
    fs.write (fs.join kmod_root_dir (install_script os))
        (shebang os ++ written (step_text (shell_of os)) steps)

  unfoldable pub create_sensor_startup_master : Found → Exec S (Unit {0})
  create_sensor_startup_master target = do
    start_dir ← lift (target_dir fs (codes "startup_scripts_directory") target)
    scripts ← fs.listdir start_dir
    fs.write (abs_join fs start_dir (codes "run_sensors.sh"))
        (codes "#!/bin/bash\n" ++ written startup_line scripts)

  -- `list(set(xs))`, in an order that Python leaves open.
  module _ (set_list : List Text → List Text) where
    abbrev pub apt_text : List Text → Text
    apt_text [] = codes "#!/bin/bash\n"
    apt_text (w ∷ ws) =
        codes "#!/bin/bash\n"
        ++ (codes "apt-get install -y " ++ (join_with (codes " ") (w ∷ ws) ++ codes "\n"))

    -- The packages of the required sensors and modules.
    unfoldable pub apt_libs : Found → List Found → List Found → Result (List Item)
    apt_libs target sensors kmods = then_result (items_of (codes "sensors") target.doc) λ required.
        then_result
          (collect (λ item. then_result (named (index_by_name sensors) item) apt_get_of) required)
          λ libs. then_result (items_of (codes "kernel_modules") target.doc) λ modules.
            then_result
              (collect (λ item. then_result (named (index_by_name kmods) item) apt_get_of) modules)
              λ more. then_result (hashable (libs ++ more)) λ _. ok (libs ++ more)

    -- A value that is no text is met when the first line is already written.
    abbrev pub write_texts : Text → Result (List Text) → Exec S (Unit {0})
    write_texts path (ok ts) = fs.write path (apt_text (set_list ts))
    write_texts path (err e) = fs.write path (codes "#!/bin/bash\n") >> raise e

    unfoldable pub write_apt : Text → List Item → Exec S (Unit {0})
    write_apt path libs = write_texts path (all_texts libs)

    unfoldable pub create_apt_get_script : Found → List Found → List Found → Exec S (Unit {0})
    unfolding apt_libs write_apt
    create_apt_get_script target sensors kmods = do
      os ← lift (entry (codes "os") target.doc)
      if field_is (codes "Windows") os then pure tt else (do
        lib_dir ← lift (target_dir fs (codes "library_directory") target)
        libs ← lift (apt_libs target sensors kmods)
        write_apt (abs_join fs lib_dir (codes "apt_get_install.sh")) libs)
