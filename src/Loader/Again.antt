-- ===== src/Loader/Again.antt =====
-- Installing what is there already.
use virt_ue_sensing.Base.{◌≡◌, Bool, true, false}
use virt_ue_sensing.Base.Text.{Text, codes, text_Eq}
use virt_ue_sensing.Base.Dict.{Dict}
use virt_ue_sensing.Base.Exec.{Result, ok, Exec}
use virt_ue_sensing.Loader.{Options, Response, ApiRequest, component_path, configuration_path}
use virt_ue_sensing.Loader.Ensure.{Answers}

module _ {ℓ} {V : Type 0} {S : Type ℓ} (send : ApiRequest V → Exec S Response) (opts : Options)
    (holds : Text → Dict Text V → S → Bool) (once : opts.updating ≡ false)
    (components : Answers send opts holds component_path (codes "component"))
    (configurations : Answers send opts holds configuration_path (codes "configuration")) where
  -- A filter can be made, and what it asks for is found.
  pub record Stored (path : Text) (made : Result (Dict Text V)) (s : S) : Type 0 where
    pub filter : Dict Text V
    pub made_is : made ≡ ok filter
    pub there : holds path filter s ≡ true
