-- ===== src/Loader/Ensure.antt =====
-- One component or configuration: what is found at the API is not put there again.
use virt_ue_sensing.Base.{◌≡◌, refl, ◌∙◌, Bool, true, false, List, ◌||◌, ◌==◌}
use virt_ue_sensing.Base.Text.{Text, text_Eq}
use virt_ue_sensing.Base.Dict.{Dict}
use virt_ue_sensing.Base.Members.{mem}
use virt_ue_sensing.Base.Exec.{Result, ok, Exec, >>=-ok}
use virt_ue_sensing.Loader.{
  Options, exists, create_mode, Response, ApiRequest, get_request, construct_api_url, store, ensure,
}
use virt_ue_sensing.Loader.{after_check}

module _ {ℓ} {V : Type 0} {S : Type ℓ} (send : ApiRequest V → Exec S Response) (opts : Options)
    (holds : Text → Dict Text V → S → Bool) where
  -- What the API promises of a check: it is answered with status 200 or 400, it changes nothing, and
  -- the answer has the key just when what the filter asks for is found there.
  pub record Answers (path key : Text) : Type ℓ where
    pub asked :
        (filter : Dict Text V) (s : S)
        → (keys : List Text) × (res : Response) × (send
              (get_request (construct_api_url opts path false) filter)
              s
            ≡ (ok res, s))
          × (((res.status_code == 200) || (res.status_code == 400)) ≡ true)
          × (res.keys ≡ ok keys)
          × (mem key keys ≡ holds path filter s)

module _ {ℓ} {V : Type 0} {S : Type ℓ} (send : ApiRequest V → Exec S Response) (opts : Options)
    (holds : Text → Dict Text V → S → Bool) (once : opts.updating ≡ false) where
  module _ (path key : Text) (api : Answers send opts holds path key) where
    -- What is stored is found, and nothing is put.
    pub ensure-exists :
        (filter : Dict Text V) (complete : Result (Dict Text V)) (s : S)
        → holds path filter s ≡ true
        → ensure send opts path key filter complete s ≡ (ok exists, s)
    unfolding ensure
    ensure-exists filter complete s h =
        let (keys, res, e, good, k, m) = api.asked filter s in
        >>=-ok (send (get_request (construct_api_url opts path false) filter))
          (after_check send opts path key complete) s s res e
        ∙ rw (good, k, m, h, once) refl

    -- What is not found is put there.
    pub ensure-missing :
        (filter : Dict Text V) (complete : Result (Dict Text V)) (s : S)
        → holds path filter s ≡ false
        → ensure send opts path key filter complete s ≡ store send opts path complete create_mode s
    unfolding ensure
    ensure-missing filter complete s h =
        let (keys, res, e, good, k, m) = api.asked filter s in
        >>=-ok (send (get_request (construct_api_url opts path false) filter))
          (after_check send opts path key complete) s s res e
        ∙ rw (good, k, m, h) refl
