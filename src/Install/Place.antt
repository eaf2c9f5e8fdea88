-- ===== src/Install/Place.antt =====
-- What is copied into a target: `prep_target`, `install_kernel_module`, `install_sensor`,
-- `install_ntfltmgr` and `install_sensor_wrapper`.
pub mod Fresh
use virt_ue_sensing.Base.{◌≡◌, Bool, true, false, List, [], ◌∷◌, ◌&&◌, not, if◌then◌else◌}
use virt_ue_sensing.Base.Text.{Text, codes, text_Eq}
use virt_ue_sensing.Base.Dict.{get}
use virt_ue_sensing.Base.Exec.{
  Result, ok, err, or_raise, then_result, Exec, pure, lift, gets, ◌>>=◌, ◌>>◌, key_error,
  type_error,
}
use virt_ue_sensing.Install.{
  Item, dict_item, Doc, Found, Host, Fs, entry, iterate, truthy, field_is, text_of, text_of_item,
  is_windows, is_win32, each,
}

-- `target["target"][k]` where a path is made of it.
abbrev pub path_entry : Text → Doc → Result Text
path_entry k d = then_result (entry k d) text_of

abbrev pub items_of : Text → Doc → Result (List Item)
items_of k d = then_result (entry k d) iterate

-- `file_def[k]`
unfoldable pub text_at : Text → Item → Result Text
unfolding get
text_at k (dict_item d) = or_raise key_error (get k d)
text_at k _ = err type_error

abbrev pub prepared_keys : List Text
prepared_keys =
    codes "sensors_directory"
    ∷ codes "requirements_directory"
    ∷ codes "startup_scripts_directory"
    ∷ codes "library_directory"
    ∷ codes "kernel_mod_directory"
    ∷ []

module _ {ℓ} {S : Type ℓ} (fs : Fs S) where
  -- `os.path.abspath(os.path.join(a, b))`
  abbrev pub abs_join : Text → Text → Text
  abs_join a b = fs.abspath (fs.join a b)

  -- `os.path.abspath(os.path.join(target["root"], target["target"][k]))`
  abbrev pub target_dir : Text → Found → Result Text
  target_dir k t = then_result (path_entry k t.doc) λ d. ok (abs_join t.root d)

  -- The directory is made anew.
  unfoldable pub renew : Text → Exec S (Unit {0})
  renew path = do
    there ← gets (fs.exists path)
    if there then fs.rmtree path else pure tt
    fs.makedirs path

  unfoldable pub prepare : Found → Text → Exec S (Unit {0})
  unfolding renew
  prepare target k = do dir ← lift (path_entry k target.doc); renew (fs.join target.root dir)

  unfoldable pub prep_target : Found → Exec S (Unit {0})
  unfolding prepare
  prep_target target = each (prepare target) prepared_keys

  copy_include : Text → Text → Item → Exec S (Unit {0})
  copy_include src dst item = do
    path ← lift (text_of_item item)
    fs.copytree (abs_join src path) (abs_join dst path)

  unfoldable pub install_kernel_module : Found → Found → Exec S (Unit {0})
  unfolding copy_include
  install_kernel_module target kmod = do
    kmod_dir ← lift (target_dir (codes "kernel_mod_directory") target)
    lift (entry (codes "version") kmod.doc)
    folder ← lift (path_entry (codes "target_folder") kmod.doc)
    includes ← lift (items_of (codes "include") kmod.doc)
    each (copy_include kmod.root (abs_join kmod_dir folder)) includes

  copy_file : Text → Text → Item → Exec S (Unit {0})
  copy_file src dst item = do
    source ← lift (text_at (codes "source") item)
    dest ← lift (text_at (codes "dest") item)
    fs.copy (abs_join src source) (abs_join dst dest)

  -- A run-time directory, with a file in it so that git records it.
  make_sub_directory : Text → Item → Exec S (Unit {0})
  make_sub_directory dst item = do
    sub ← lift (text_of_item item)
    fs.makedirs (abs_join dst sub)
    fs.write (fs.join (fs.join dst sub) (codes ".empty")) (b'\n' ∷ [])

  copy_same : Text → Text → Text → Exec S (Unit {0})
  copy_same src dst name = fs.copy (abs_join src name) (abs_join dst name)

  install_startup : Host → Text → Found → Exec S (Unit {0})
  unfolding copy_same
  install_startup host run_dir sensor = if is_windows host then pure tt else (do
    script ← lift (entry (codes "startup_script") sensor.doc)
    if truthy script
        then (do name ← lift (text_of script); copy_same sensor.root run_dir name)
        else pure tt)

  unfoldable pub install_sensor_files : Host → Found → Found → Exec S (Unit {0})
  unfolding copy_file make_sub_directory install_startup copy_same
  install_sensor_files host target sensor = do
    sensors_dir ← lift (target_dir (codes "sensors_directory") target)
    reqs_dir ← lift (target_dir (codes "requirements_directory") target)
    run_dir ← lift (target_dir (codes "startup_scripts_directory") target)
    lift (entry (codes "version") sensor.doc)
    folder ← lift (path_entry (codes "target_folder") sensor.doc)
    fs.makedirs (abs_join sensors_dir folder)
    files ← lift (items_of (codes "files") sensor.doc)
    each (copy_file sensor.root (abs_join sensors_dir folder)) files
    subs ← lift (items_of (codes "required_sub_directories") sensor.doc)
    each (make_sub_directory (abs_join sensors_dir folder)) subs
    install_startup host run_dir sensor
    requirements ← lift (items_of (codes "requirements_files") sensor.doc)
    each (λ item. do name ← lift (text_of_item item); copy_same sensor.root reqs_dir name)
        requirements

  unfoldable pub install_sensor : Host → Found → Found → Exec S (Unit {0})
  unfolding install_sensor_files
  install_sensor host target sensor =
      if is_win32 host
      then (do
        os ← lift (entry (codes "os") target.doc)
        if field_is (codes "Windows") os then install_sensor_files host target sensor else pure tt)
      else install_sensor_files host target sensor

  -- A library's directory with its files, and its requirements file.
  install_library : Text → List Text → Text → Text → Found → Exec S (Unit {0})
  unfolding copy_same
  install_library folder lib_files requirements src target = do
    reqs_dir ← lift (target_dir (codes "requirements_directory") target)
    lib_dir ← lift (target_dir (codes "library_directory") target)
    fs.makedirs (abs_join lib_dir folder)
    each (copy_same src (abs_join lib_dir folder)) lib_files
    copy_same src reqs_dir requirements

  unfoldable pub install_ntfltmgr : Found → Text → Exec S (Unit {0})
  unfolding install_library
  install_ntfltmgr target ntfltmgr_dir =
      install_library (codes "ntfltmgr") (codes "ntfltmgr.py" ∷ codes "setup.py" ∷ [])
        (codes "ntfltmgr_requirements.txt") ntfltmgr_dir target

  unfoldable pub install_sensor_wrapper : Found → Text → Exec S (Unit {0})
  unfolding install_library
  install_sensor_wrapper target wrapper_dir =
      install_library (codes "sensor_wrapper") (codes "sensor_wrapper.py" ∷ codes "setup.py" ∷ [])
        (codes "sensor_wrapper_requirements.txt") wrapper_dir target
