-- ===== src/Install/Check.antt =====
-- `validate_kmod`, `validate_target` and `validate_sensor`.
pub mod Required
use virt_ue_sensing.Base.{
  ◌≡◌, refl, Bool, true, false, Option, some, none, List, [], ◌∷◌, ◌++◌, not, ◌&&◌, ◌||◌,
  if◌then◌else◌,
}
use virt_ue_sensing.Base.Text.{Text, codes, text_eq, text_Eq}
use virt_ue_sensing.Base.Dict.{Dict, get, put, contains}
use virt_ue_sensing.Base.Fallible.{◌>>=◌, ◌>>◌}
use virt_ue_sensing.Base.Exec.{Result, ok, err, or_raise, type_error, key_error}
use virt_ue_sensing.Install.{
  Item, text_item, dict_item, scalar_item, Field, list_field, Doc, Found, Host, has_key, entry,
  iterate, truthy, field_is, text_of, text_of_item, is_windows,
}

-- The messages of the three functions, with what they are formatted with.
pub data Problem : Type 0 where
  include_missing install_missing startup_script_missing : Problem
  requirements_file_missing source_missing : Text → Problem
  key_missing not_a_list : Text → Problem
  platform_invalid : Field → Problem
  no_sensor no_kernel_module : Item → Problem
  directory_missing : Text → Problem

-- `for x in xs: ... errors.append(...)`
abbrev pub gather {ℓ} : {A : Type ℓ} → (A → Result (List Problem)) → List A → Result (List Problem)
gather f [] = ok []
gather f (x ∷ xs) = do here ← f x; more ← gather f xs; ok (here ++ more)

abbrev pub unless : Bool → Problem → List Problem
unless b p = if b then [] else p ∷ []

-- `for k in ks: if k not in doc: ...`
abbrev pub missing_keys : List Text → Doc → List Problem
missing_keys [] d = []
missing_keys (k ∷ ks) d = unless (has_key k d) (key_missing k) ++ missing_keys ks d

abbrev pub is_list : Field → Bool
is_list (list_field _) = true
is_list _ = false

-- `k in doc and isinstance(doc[k], list)`
abbrev pub has_list : Text → Doc → Bool
has_list k d = elim (entry k d) [ ok f ↦ is_list f | err _ ↦ false ]

-- `name in index`, which raises on a key that has no hash.
unfoldable pub in_index {ℓ} : {V : Type ℓ} → Dict Text V → Item → Result Bool
unfolding contains
in_index d (text_item t) = ok (contains t d)
in_index d (dict_item _) = err type_error
in_index d scalar_item = ok false

-- `{x["name"]: x for x in xs}`: a later entry takes the place of an earlier one of that name.
index_from : Dict Text Found → List Found → Dict Text Found
unfolding put
index_from d [] = d
index_from d (x ∷ xs) = index_from (put x.name x d) xs

unfoldable pub index_by_name : List Found → Dict Text Found
unfolding index_from
index_by_name = index_from []

abbrev pub check_kmod_keys : Doc → List Problem
check_kmod_keys d =
    missing_keys (codes "apt-get" ∷ codes "name" ∷ codes "version" ∷ codes "target_folder" ∷ []) d
    ++ unless (has_list (codes "apt-get") d) (not_a_list (codes "apt-get"))

-- `os.path.join`, `os.path.exists` and `os.path.isfile`.
module _ (join : Text → Text → Text) (exists isfile : Text → Bool) where
  abbrev pub check_path : (Text → Bool) → Text → (Text → Problem) → Item → Result (List Problem)
  check_path test root problem item = do
    name ← text_of_item item
    ok (unless (test (join root name)) (problem name))

  unfoldable pub validate_kmod : Found → Result (List Problem)
  validate_kmod kmod = do
    includes ← entry (codes "include") kmod.doc >>= iterate
    absent ← gather (check_path exists kmod.root (λ _. include_missing)) includes
    installs ← entry (codes "install") kmod.doc >>= iterate
    lost ← gather (check_path isfile kmod.root (λ _. install_missing)) installs
    ok (absent ++ (lost ++ check_kmod_keys kmod.doc))

  -- `src_file["source"]`
  unfoldable pub source_of : Item → Result Text
  unfolding get
  source_of (dict_item d) = or_raise key_error (get (codes "source") d)
  source_of _ = err type_error

  abbrev pub check_source : Text → Item → Result (List Problem)
  check_source root item = do
    source ← source_of item
    ok (unless (isfile (join root source)) (source_missing source))

  -- `pdb.set_trace()`
  module _ (set_trace : Result (Unit {0})) (host : Host) where
    check_list : Doc → Text → Result (List Problem)
    check_list d k = elim (entry k d) [
      | err _ ↦ ok (key_missing k ∷ [])
      | ok f ↦ if is_list f then ok [] else set_trace >> ok (not_a_list k ∷ [])
    ]

    check_startup : Found → Result (List Problem)
    check_startup sensor = if is_windows host then ok [] else (do
      script ← entry (codes "startup_script") sensor.doc
      if truthy script
          then (do
            name ← text_of script
            ok (unless (isfile (join sensor.root name)) startup_script_missing))
          else ok [])

    check_files : Found → Result (List Problem)
    check_files sensor =
        if is_windows host
        then ok []
        else entry (codes "files") sensor.doc >>= iterate >>= gather (check_source sensor.root)

    unfoldable pub validate_sensor : Found → Result (List Problem)
    unfolding check_list check_startup check_files
    validate_sensor sensor = do
      startup ← check_startup sensor
      requirements ← entry (codes "requirements_files") sensor.doc >>= iterate
      lost ← gather (check_path isfile sensor.root requirements_file_missing) requirements
      sources ← check_files sensor
      lists ←
          gather (check_list sensor.doc) (codes "required_sub_directories" ∷ codes "apt-get" ∷ [])
      let keys =
            missing_keys (codes "name" ∷ codes "version" ∷ codes "target_folder" ∷ []) sensor.doc in
          ok (startup ++ (lost ++ (sources ++ (lists ++ keys))))

abbrev pub directory_keys : List Text
directory_keys =
    codes "os"
    ∷ codes "sensors_directory"
    ∷ codes "requirements_directory"
    ∷ codes "startup_scripts_directory"
    ∷ codes "library_directory"
    ∷ []

-- The entries that are not asked for on Windows.
unfoldable pub skipped : Host → Text → Bool
unfolding text_eq
skipped host k =
    is_windows host
    && (text_eq k (codes "sensors_directory") || text_eq k (codes "startup_scripts_directory"))

abbrev pub missing_directories : Host → List Text → Doc → List Problem
missing_directories host [] d = []
missing_directories host (k ∷ ks) d =
    unless (skipped host k || has_key k d) (directory_missing k) ++ missing_directories host ks d

abbrev pub check_os : Doc → List Problem
check_os d = elim (entry (codes "os") d) [
  | err _ ↦ []
  | ok os ↦
      unless (field_is (codes "Linux") os || field_is (codes "Windows") os) (platform_invalid os)
]

-- `for name in target["target"][...]: if name not in index: ...`
abbrev pub check_required :
    {V : Type 0} → (Item → Problem) → Dict Text V → List Item → Result (List Problem)
check_required problem d =
    gather (λ item. do there ← in_index d item; ok (unless there (problem item)))

unfoldable pub validate_target : Host → Found → List Found → List Found → Result (List Problem)
validate_target host target sensors kmods = do
  required ← entry (codes "sensors") target.doc >>= iterate
  no_sensors ← check_required no_sensor (index_by_name sensors) required
  modules ← entry (codes "kernel_modules") target.doc >>= iterate
  no_kmods ← check_required no_kernel_module (index_by_name kmods) modules
  let absent = missing_directories host directory_keys target.doc in
      ok (check_os target.doc ++ (no_sensors ++ (no_kmods ++ absent)))
