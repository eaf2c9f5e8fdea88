-- ===== src/Certs/Tests.antt =====
-- A run of the certificate tool against an authority that answers.
use virt_ue_sensing.Base.{◌≡◌, refl, ◌⊎◌, Bool, true, false, some, none, [], ◌∷◌, ◌++◌}
use virt_ue_sensing.Base.Text.{Text, codes, text_Eq, text_eq}
use virt_ue_sensing.Base.Dict.{Dict}
use virt_ue_sensing.Base.Exec.{Result, ok, Exec}
use virt_ue_sensing.Certs.{
  CertOptions, World, CaRequest, Response, main, write_keys, write_key, keys_to_write,
  get_ca_certificate, ensure_cert_dir, key_pair, get_keys, sign_key, have_hostname,
  have_shared_secret,
}
use virt_ue_sensing.Certs.Outcome.{Complete, with_keys, main-writes}

abbrev defaults : CertOptions
defaults = record {
  cfssl_host = codes "cfssl";
  cfssl_port = 3030;
  ca_only = false;
  hostname = none;
  cert_dir = codes "./certs";
  cert_algo = codes "rsa";
  cert_size = 4096;
  cfssl_secret = none;
}

-- Each entry of the answer is its own name.
abbrev answer : Response
answer = record {
  status_code = 200;
  json = ok (record { success = ok true; result = λ k. ok k; errors = ok tt });
}

abbrev authority : Text → CaRequest → Exec (Unit {0}) Response
authority to body s = (ok answer, s)

abbrev begin : World (Unit {0})
begin = record { opts = defaults; files = []; net = tt }

abbrev environ : Dict Text Text
environ = (codes "CFSSL_SHARED_SECRET", codes "00") ∷ []

abbrev run : World (Unit {0}) → Result Bool × World (Unit {0})
run =
    main authority authority (λ t. ok t) (λ k t. k ++ t) (λ t. t) (λ r. r.certificate_request)
      environ (some (codes "sensor")) (λ a b. a ++ (codes "/" ++ b)) (λ p. true) (λ p. p)
      (λ p s. true) (λ p s. (ok tt, s))

main-writes_example :
    ((true ≡ false) × ((run begin).1.files ≡ []))
    ⊎ ((true ≡ true)
        × ((keys : Dict Text Text) × Complete authority authority
              (λ t. ok t)
              (λ k t. k ++ t)
              (λ t. t)
              (λ r. r.certificate_request)
              environ
              (some (codes "sensor"))
              defaults
              tt
              keys
            × ((run begin).1.files ≡ with_keys (λ b. codes "./certs" ++ (codes "/" ++ b)) keys [])))
unfolding text_eq main write_keys write_key keys_to_write get_ca_certificate ensure_cert_dir
    key_pair get_keys sign_key have_hostname have_shared_secret
main-writes_example =
    main-writes authority authority (λ t. ok t) (λ k t. k ++ t) (λ t. t)
      (λ r. r.certificate_request) environ (some (codes "sensor")) (λ a b. a ++ (codes "/" ++ b))
      (λ p. true) (λ p. p) (λ p s. true) (λ p s. (ok tt, s)) begin (run begin).1 true refl
