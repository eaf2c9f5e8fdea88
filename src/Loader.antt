-- ===== src/Loader.antt =====
-- The tool that puts sensor configurations into the Sensing API
-- (bin/load_sensor_configurations.py).
pub mod Ensure
pub mod Again
mod Tests
use virt_ue_sensing.Base.{
  ℕ, ◌≡◌, Bool, true, false, Option, some, none, List, [], ◌∷◌, ◌++◌, ◌||◌, ◌==◌, if◌then◌else◌,
  nat_Eq,
}
use virt_ue_sensing.Base.Text.{Text, codes, text_Eq, starts_with}
use virt_ue_sensing.Base.Number.{to_decimal}
use virt_ue_sensing.Base.Dict.{Dict, get, put}
use virt_ue_sensing.Base.Members.{mem}
use virt_ue_sensing.Install.{Visit}
use virt_ue_sensing.Base.Log.{update}
use virt_ue_sensing.Base.Exec.{
  Result, ok, err, or_raise, then_result, Exec, pure, lift, ◌>>=◌, ◌>>◌, key_error,
}

-- The command line.
pub record Options : Type 0 where
  pub api_host : Text
  pub api_port_https : ℕ
  pub api_port_http : ℕ
  pub api_version : Text
  pub updating : Bool

unfoldable pub api_host_of : Options → Bool → Text
unfolding starts_with to_decimal
api_host_of opts secure =
    if starts_with (codes "http") opts.api_host
    then opts.api_host
    else if secure
    then codes "https://" ++ (opts.api_host ++ (codes ":" ++ to_decimal opts.api_port_https))
    else codes "http://" ++ (opts.api_host ++ (codes ":" ++ to_decimal opts.api_port_http))

unfoldable pub construct_api_url : Options → Text → Bool → Text
unfolding api_host_of
construct_api_url opts path secure =
    api_host_of opts secure ++ (codes "/api/" ++ (opts.api_version ++ path))

-- The strings that the two functions return.
pub data InstallOutcome : Type 0 where
  exists error created updated : InstallOutcome

pub data Mode : Type 0 where
  create_mode update_mode : Mode

abbrev pub mode_text : Mode → Text
mode_text create_mode = codes "create"
mode_text update_mode = codes "update"

abbrev pub mode_done : Mode → InstallOutcome
mode_done create_mode = created
mode_done update_mode = updated

-- What a request is after_check with; `keys` are those of `res.json()`, which may raise.
pub record Response : Type 0 where
  pub status_code : ℕ
  pub keys : Result (List Text)

-- A collection, as `load_configurations` gives it.
pub record Config (V : Type 0) : Type 0 where
  pub fields : Dict Text V
  pub configurations : List (Dict Text V)

pub data ApiRequest (V : Type 0) : Type 0 where
  get_request put_request : Text → Dict Text V → ApiRequest V

abbrev pub component_path : Text
component_path = codes "/configuration/component"

abbrev pub configuration_path : Text
configuration_path = codes "/configuration/component/configuration"

abbrev pub outcome_of : Mode → Response → InstallOutcome
outcome_of mode res = if res.status_code == 200 then mode_done mode else error

-- The values of JSON objects, which are passed on as they are.
module _ {V : Type 0} where
  unfoldable pub at : Text → Dict Text V → Result V
  unfolding get
  at k d = or_raise key_error (get k d)

  unfoldable pub component_filter : Dict Text V → Result (Dict Text V)
  unfolding at
  component_filter comp = then_result (at (codes "name") comp) λ name.
      then_result (at (codes "os") comp) λ os.
        then_result (at (codes "context") comp)
          λ context. ok ((codes "name", name) ∷ (codes "os", os) ∷ (codes "context", context) ∷ [])

  -- `conf_filter` with `comp_filter` put into it.
  unfoldable pub configuration_filter : Dict Text V → Dict Text V → Result (Dict Text V)
  configuration_filter comp conf = then_result (component_filter comp) λ filter.
      then_result (at (codes "level") conf) λ level.
        then_result (at (codes "version") conf)
          λ version. ok (update ((codes "level", level) ∷ (codes "version", version) ∷ []) filter)

  -- The key in the request, and the key that it is read from.
  unfoldable pub with_field : Text → Text → Dict Text V → Dict Text V → Result (Dict Text V)
  unfolding at put
  with_field key source d filter = then_result (at source d) λ v. ok (put key v filter)

  unfoldable pub complete_configuration : Dict Text V → Dict Text V → Result (Dict Text V)
  complete_configuration conf filter =
      then_result (with_field (codes "configuration") (codes "configuration_content") conf filter)
        λ d.
          then_result (with_field (codes "description") (codes "description") conf d)
            λ e. with_field (codes "format") (codes "format") conf e

  -- `requests.get` and `requests.put`.
  module _ {ℓ} {S : Type ℓ} (send : ApiRequest V → Exec S Response) (opts : Options) where
    -- The component or configuration is put there.
    unfoldable pub store : Text → Result (Dict Text V) → Mode → Exec S InstallOutcome
    store path complete mode = do
      doc ← lift complete
      res ←
          send
            (put_request (construct_api_url opts (path ++ (codes "/" ++ mode_text mode)) false) doc)
      pure (outcome_of mode res)

    -- What follows on the answer of the check.
    abbrev pub store_unless : Text → Result (Dict Text V) → Bool → Exec S InstallOutcome
    store_unless path complete true =
        if opts.updating then store path complete update_mode else pure exists
    store_unless path complete false = store path complete create_mode

    -- What follows on the response of the check.
    abbrev pub after_check : Text → Text → Result (Dict Text V) → Response → Exec S InstallOutcome
    after_check path key complete res =
        if (res.status_code == 200) || (res.status_code == 400)
        then (do keys ← lift res.keys; store_unless path complete (mem key keys))
        else pure error

    -- What `install_component` and `install_configuration` do: ask whether it is there, and put it there.
    unfoldable pub ensure : Text → Text → Dict Text V → Result (Dict Text V) → Exec S InstallOutcome
    ensure path key filter complete =
        send (get_request (construct_api_url opts path false) filter)
        >>= after_check path key complete

    unfoldable pub install_component : Dict Text V → Exec S InstallOutcome
    install_component comp = do
      filter ← lift (component_filter comp)
      ensure component_path (codes "component") filter
          (with_field (codes "description") (codes "description") comp filter)

    unfoldable pub install_configuration : Dict Text V → Dict Text V → Exec S InstallOutcome
    install_configuration comp conf = do
      filter ← lift (configuration_filter comp conf)
      ensure configuration_path (codes "configuration") filter (complete_configuration conf filter)

    unfoldable pub install_configurations :
        Dict Text V → List (Dict Text V) → Exec S (List InstallOutcome)
    install_configurations comp [] = pure []
    install_configurations comp (conf ∷ confs) = do
      res ← install_configuration comp conf
      rest ← install_configurations comp confs
      pure (res ∷ rest)

    -- The outcomes, which are printed.
    unfoldable pub install : Config V → Exec S (List InstallOutcome)
    install config = do
      res ← install_component config.fields
      rest ← install_configurations config.fields config.configurations
      pure (res ∷ rest)

-- `open(path).read()`, `json.load`, `os.path`, and the texts among the JSON values.
module _ {V : Type 0} (read : Text → Result Text) (load : Text → Result (Config V))
    (join : Text → Text → Text) (abspath : Text → Text) (to_text : V → Result Text)
    (of_text : Text → V) where
  load_content : Text → Dict Text V → Result (Dict Text V)
  unfolding at put
  load_content root variant = then_result (at (codes "source") variant) λ source.
      then_result (to_text source) λ name.
        then_result (read (abspath (join root name)))
          λ content. ok (put (codes "configuration_content") (of_text content) variant)

  load_contents : Text → List (Dict Text V) → Result (List (Dict Text V))
  unfolding load_content
  load_contents root [] = ok []
  load_contents root (v ∷ vs) =
      then_result (load_content root v) λ w. then_result (load_contents root vs) λ ws. ok (w ∷ ws)

  unfoldable pub load_configurations : Text → Result (Config V)
  unfolding load_contents
  load_configurations root =
      then_result (load (join root (codes "sensor_configurations.json"))) λ conf.
        then_result (load_contents root conf.configurations)
          λ configurations. ok (record { fields = conf.fields; configurations = configurations })

  unfoldable pub find_configuration_collections : List Visit → Result (List (Config V))
  unfolding load_configurations
  find_configuration_collections [] = ok []
  find_configuration_collections (v ∷ vs) =
      let rest = find_configuration_collections vs in
      if mem (codes "sensor_configurations.json") v.files
      then then_result (load_configurations v.root)
          (λ conf. then_result rest λ confs. ok (conf ∷ confs))
      else rest
