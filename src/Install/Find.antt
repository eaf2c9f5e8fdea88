-- ===== src/Install/Find.antt =====
-- `find_sensors`, `find_kmods` and `find_targets`, over the directories that `os.walk` gives.
use virt_ue_sensing.Base.{List, [], ◌∷◌, if◌then◌else◌}
use virt_ue_sensing.Base.Text.{Text, codes, text_Eq}
use virt_ue_sensing.Base.Members.{mem}
use virt_ue_sensing.Base.Fallible.{◌>>=◌}
use virt_ue_sensing.Base.Exec.{Result, ok, or_raise, key_error}
use virt_ue_sensing.Install.{Doc, Found, Visit}

-- `json.load(open(path))` and `os.path.join`.
module _ (load : Text → Result Doc) (join : Text → Text → Text) where
  found_in : Text → Visit → Result Found
  found_in file v = do
    d ← load (join v.root file)
    name ← or_raise key_error d.name
    ok (record { root = v.root; doc = d; name = name })

  unfoldable find_definitions : Text → List Visit → Result (List Found)
  unfolding found_in
  find_definitions file [] = ok []
  find_definitions file (v ∷ vs) =
      let rest = find_definitions file vs in
      if mem file v.files then (do x ← found_in file v; xs ← rest; ok (x ∷ xs)) else rest

  unfoldable pub find_kmods : List Visit → Result (List Found)
  unfolding find_definitions
  find_kmods = find_definitions (codes "kernel_module.json")

  unfoldable pub find_sensors : List Visit → Result (List Found)
  unfolding find_definitions
  find_sensors = find_definitions (codes "sensor.json")

  unfoldable pub find_targets : List Visit → Result (List Found)
  unfolding find_definitions
  find_targets = find_definitions (codes "target.json")
