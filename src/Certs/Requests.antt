-- ===== src/Certs/Requests.antt =====
-- The requests of the certificate tool leave the files as they are.
use virt_ue_sensing.Base.{◌≡◌, refl, ◌∙◌, Bool, true, false, Option, arith}
use virt_ue_sensing.Base.Text.{Text, text_Eq}
use virt_ue_sensing.Base.Dict.{Dict}
use virt_ue_sensing.Base.Exec.{Result, ok, err, Exec, ◌>>=◌}
use virt_ue_sensing.Certs.{
  World, CaRequest, SigningRequest, Response, get_ca_certificate, sign_key, get_keys,
  have_shared_secret, have_hostname, key_pair,
}
use virt_ue_sensing.Certs.{keys_for_host, keys_with_secret}

bind-files_of {ℓ κ η} :
    {S : Type ℓ} {A : Type κ} {B : Type η} (r : Result A × World S) (f : A → Exec (World S) B)
    (w : World S)
    → r.1.files ≡ w.files
    → ((a : A) (w : World S) → (f a w).1.files ≡ w.files)
    → (elim r.0 as (λ _. Result B × World S) [ ok a ↦ f a r.1 | err x ↦ (err x, r.1) ]).1.files
      ≡ w.files
bind-files_of (ok a, u) f w h hf = hf a u ∙ h
bind-files_of (err x, u) f w h hf = h

-- A chain of steps that leave the files leaves them.
bind-files {ℓ κ η} :
    {S : Type ℓ} {A : Type κ} {B : Type η} (m : Exec (World S) A) (f : A → Exec (World S) B)
    → ((w : World S) → (m w).1.files ≡ w.files)
    → ((a : A) (w : World S) → (f a w).1.files ≡ w.files)
    → (w : World S) → ((m >>= f) w).1.files ≡ w.files
bind-files m f hm hf w = bind-files_of (m w) f w (hm w) hf

module _ {ℓ} {S : Type ℓ} (post retry : Text → CaRequest → Exec S Response)
    (fromhex : Text → Result Text) (hmac_sha256 : Text → Text → Text) (b64encode : Text → Text)
    (dumps : SigningRequest → Text) where
  pub get_ca_certificate-opts :
      (w : World S)
      → (get_ca_certificate post retry fromhex hmac_sha256 b64encode dumps w).1.opts ≡ w.opts
  unfolding get_ca_certificate
  get_ca_certificate-opts w = ground arith

  pub get_ca_certificate-files :
      (w : World S)
      → (get_ca_certificate post retry fromhex hmac_sha256 b64encode dumps w).1.files ≡ w.files
  unfolding get_ca_certificate
  get_ca_certificate-files w = ground arith

  sign_key-files :
      (private_key csr : Text) (w : World S)
      → (sign_key post retry fromhex hmac_sha256 b64encode dumps private_key csr w).1.files
        ≡ w.files
  unfolding sign_key
  sign_key-files private_key csr w = ground arith

  get_keys-files :
      (w : World S) → (get_keys post retry fromhex hmac_sha256 b64encode dumps w).1.files ≡ w.files
  unfolding get_keys
  get_keys-files w = grind (arith, sign_key-files)

  module _ (environ : Dict Text Text) (gethostname : Option Text) where
    have_shared_secret-files :
        (w : World S)
        → (have_shared_secret post retry fromhex hmac_sha256 b64encode dumps environ w).1.files
          ≡ w.files
    unfolding have_shared_secret
    have_shared_secret-files w = ground arith

    have_hostname-files :
        (w : World S)
        → (have_hostname post retry fromhex hmac_sha256 b64encode dumps gethostname w).1.files
          ≡ w.files
    unfolding have_hostname
    have_hostname-files w = ground arith

    keys_for_host-files :
        (host : Bool) (w : World S)
        → (keys_for_host post retry fromhex hmac_sha256 b64encode dumps environ gethostname host
            w).1.files
          ≡ w.files
    keys_for_host-files true w = get_keys-files w
    keys_for_host-files false w = refl

    keys_with_secret-files :
        (secret : Bool) (w : World S)
        → (keys_with_secret post retry fromhex hmac_sha256 b64encode dumps environ gethostname
            secret w).1.files
          ≡ w.files
    keys_with_secret-files true w =
        bind-files (have_hostname post retry fromhex hmac_sha256 b64encode dumps gethostname)
          (keys_for_host post retry fromhex hmac_sha256 b64encode dumps environ gethostname)
          have_hostname-files keys_for_host-files w
    keys_with_secret-files false w = refl

    pub key_pair-files :
        (w : World S)
        → (key_pair post retry fromhex hmac_sha256 b64encode dumps environ gethostname w).1.files
          ≡ w.files
    unfolding key_pair
    key_pair-files w =
        bind-files (have_shared_secret post retry fromhex hmac_sha256 b64encode dumps environ)
          (keys_with_secret post retry fromhex hmac_sha256 b64encode dumps environ gethostname)
          have_shared_secret-files keys_with_secret-files w
