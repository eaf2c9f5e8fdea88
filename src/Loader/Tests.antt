-- ===== src/Loader/Tests.antt =====
-- A run of the tool against a server that keeps one component and one configuration.
use virt_ue_sensing.Base.{Bool, true, false, [], ◌∷◌, ◌++◌, if◌then◌else◌}
use virt_ue_sensing.Base.Text.{Text, codes, text_eq}
use virt_ue_sensing.Base.Dict.{Dict}
use virt_ue_sensing.Base.Exec.{ok, Exec}
use virt_ue_sensing.Loader.{
  Options, Response, Config, ApiRequest, get_request, put_request, component_path,
  construct_api_url,
}

abbrev local : Options
local = record {
  api_host = codes "localhost";
  api_port_https = 17504;
  api_port_http = 17141;
  api_version = codes "v1";
  updating = false;
}

-- Whether a component, and whether a configuration is there.
abbrev Shelf : Type 0
Shelf = Bool × Bool

abbrev url_of : Text → Text
unfolding construct_api_url
url_of path = construct_api_url local path false

abbrev found : Text → Bool → Response
found key there = record { status_code = 200; keys = ok (if there then key ∷ [] else []) }

serve_shelf : ApiRequest Text → Exec Shelf Response
unfolding text_eq url_of
serve_shelf (get_request url doc) s = (
  ok (
      if text_eq url (url_of component_path)
      then found (codes "component") s.0
      else found (codes "configuration") s.1),
  s,
)
serve_shelf (put_request url doc) s = (
  ok (record { status_code = 200; keys = ok [] }),
  (if text_eq url (url_of (component_path ++ codes "/create")) then (true, s.1) else (s.0, true)),
)

on_shelf : Text → Dict Text Text → Shelf → Bool
unfolding text_eq
on_shelf path doc s = if text_eq path component_path then s.0 else s.1

abbrev lsof_config : Config Text
lsof_config = record {
  fields =
      (codes "name", codes "lsof")
      ∷ (codes "os", codes "linux")
      ∷ (codes "context", codes "virtue")
      ∷ (codes "description", codes "open files")
      ∷ [];
  configurations =
      ((codes "level", codes "default")
        ∷ (codes "version", codes "latest")
        ∷ (codes "format", codes "json")
        ∷ (codes "description", codes "moderate")
        ∷ (codes "configuration_content", codes "{}")
        ∷ [])
      ∷ [];
}
