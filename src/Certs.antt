-- ===== src/Certs.antt =====
-- The tool that gets certificates from the certificate authority
-- (tools/certificates/get_certificates.py).
pub mod Requests
pub mod Answers
pub mod Outcome
mod Tests
use virt_ue_sensing.Base.{
  ℕ, ◌≡◌, Bool, true, false, not, Option, some, none, List, [], ◌∷◌, ◌++◌, ◌==◌, if◌then◌else◌,
}
use virt_ue_sensing.Base.Text.{Text, codes, text_Eq}
use virt_ue_sensing.Base.Number.{to_decimal}
use virt_ue_sensing.Base.Dict.{Dict, get, put}
use virt_ue_sensing.Base.Exec.{
  Result, ok, err, or_raise, then_result, Exec, pure, raise, lift, gets, modify, ◌>>=◌, ◌>>◌,
  os_error, type_error,
}

-- The command line; main fills in the secret and the host name.
pub record CertOptions : Type 0 where
  pub cfssl_host : Text
  pub cfssl_port : ℕ
  pub ca_only : Bool
  pub hostname : Option Text
  pub cert_dir : Text
  pub cert_algo : Text
  pub cert_size : ℕ
  pub cfssl_secret : Option Text

-- A file with its permissions, which only `os.chmod` sets here.
pub record File : Type 0 where
  pub content : Text
  pub mode : Option ℕ

-- The options, the files, and the rest of the world with the network.
pub record World {ℓ} (S : Type ℓ) : Type ℓ where
  pub opts : CertOptions
  pub files : Dict Text File
  pub net : S

-- The bodies of the three requests.
pub data CaRequest : Type 0 where
  info : Text → CaRequest
  newkey : Text → ℕ → Option Text → CaRequest
  authsign : Text → Text → CaRequest

pub record SigningRequest : Type 0 where
  pub request_hostname : Option Text
  pub certificate_request : Text

-- A response, with what the tool reads in its JSON: each may raise.
pub record CaAnswer : Type 0 where
  pub success : Result Bool
  pub result : Text → Result Text
  pub errors : Result (Unit {0})

pub record Response : Type 0 where
  pub status_code : ℕ
  pub json : Result CaAnswer

unfoldable pub url : Text → CertOptions → Text
unfolding to_decimal
url action o =
    codes "http://"
    ++ (o.cfssl_host
        ++ (codes ":" ++ (to_decimal o.cfssl_port ++ (codes "/api/v1/cfssl/" ++ action))))

-- `post` is requests.post, and with retries that of the session; `fromhex`, `hmac_sha256`,
-- `b64encode` and `dumps` are those of Python.
module _ {ℓ} {S : Type ℓ} (post retry : Text → CaRequest → Exec S Response)
    (fromhex : Text → Result Text) (hmac_sha256 : Text → Text → Text) (b64encode : Text → Text)
    (dumps : SigningRequest → Text) where
  -- A request leaves the options and the files.
  abbrev pub on_net {κ} : {A : Type κ} → Exec S A → Exec (World S) A
  on_net m w = let (r, n) = m w.net in (r, record w { net = n })

  abbrev pub when_good : CaAnswer → Bool → Result (Option CaAnswer)
  when_good payload true = ok (some payload)
  when_good payload false = then_result payload.errors λ _. ok none

  -- What a response with status 200 holds; otherwise its errors are printed.
  abbrev pub answer_of : Response → Result (Option CaAnswer)
  answer_of res =
      if res.status_code == 200
      then then_result res.json
          (λ payload. then_result payload.success (λ good. when_good payload good))
      else ok none

  unfoldable pub get_ca_certificate : Exec (World S) (Option Text)
  get_ca_certificate = do
    to ← gets (λ w. url (codes "info") w.opts)
    res ← on_net (retry to (info (codes "primary")))
    payload ← lift (answer_of res)
    elim payload [
      | none ↦ pure none
      | some p ↦ (do key ← lift (p.result (codes "certificate")); pure (some key))
    ]

  -- An option that is a text, where `None` would make `bytearray.fromhex` raise.
  abbrev pub secret_of : CertOptions → Result Text
  secret_of o = or_raise type_error o.cfssl_secret

  -- The signing of the request that came with the private key.
  unfoldable pub sign_key : Text → Text → Exec (World S) (Option (Text × Text))
  sign_key private_key csr = do
    o ← gets (λ w. w.opts)
    key ← lift (then_result (secret_of o) fromhex)
    let text = dumps (record { request_hostname = o.hostname; certificate_request = csr }) in
        (do
          res ← on_net (
              post (url (codes "authsign") o)
                (authsign (b64encode text) (b64encode (hmac_sha256 key text))))
          payload ← lift (answer_of res)
          elim payload [
            | none ↦ pure none
            | some p ↦ (do
              public_key ← lift (p.result (codes "certificate"))
              pure (some (public_key, private_key)))
          ])

  -- The public and the private key; `none` when `success` is false.
  unfoldable pub get_keys : Exec (World S) (Option (Text × Text))
  get_keys = do
    o ← gets (λ w. w.opts)
    res ← on_net (post (url (codes "newkey") o) (newkey o.cert_algo o.cert_size o.hostname))
    payload ← lift (answer_of res)
    elim payload [
      | none ↦ pure none
      | some p ↦ (do
        private_key ← lift (p.result (codes "private_key"))
        csr ← lift (p.result (codes "certificate_request"))
        sign_key private_key csr)
    ]

  -- `os.environ`
  unfoldable pub have_shared_secret : Dict Text Text → Exec (World S) Bool
  unfolding get
  have_shared_secret environ w = elim w.opts.cfssl_secret [
    | some _ ↦ (ok true, w)
    | none ↦ elim (get (codes "CFSSL_SHARED_SECRET") environ) [
      | some secret ↦ (ok true, record w { opts = record w.opts { cfssl_secret = some secret } })
      | none ↦ (ok false, w)
    ]
  ]

  -- `socket.gethostname()`
  unfoldable pub have_hostname : Option Text → Exec (World S) Bool
  have_hostname gethostname w = elim w.opts.hostname [
    | some _ ↦ (ok true, w)
    | none ↦ (
      ok (elim gethostname [ some _ ↦ true | none ↦ false ]),
      record w { opts = record w.opts { hostname = gethostname } },
    )
  ]

  module _ (environ : Dict Text Text) (gethostname : Option Text) where
    abbrev pub keys_for_host : Bool → Exec (World S) (Option (Text × Text))
    keys_for_host true = get_keys
    keys_for_host false = pure none

    abbrev pub keys_with_secret : Bool → Exec (World S) (Option (Text × Text))
    keys_with_secret true = have_hostname gethostname >>= keys_for_host
    keys_with_secret false = pure none

    -- The keys behind that of the authority; `none` is `sys.exit(1)`.
    unfoldable pub key_pair : Exec (World S) (Option (Text × Text))
    key_pair = have_shared_secret environ >>= keys_with_secret

    abbrev pub with_pair : Text → Option (Text × Text) → Option (Dict Text Text)
    with_pair ca none = none
    with_pair ca (some (pub_key, priv_key)) =
        some (
          (codes "ca.pem", ca)
          ∷ (codes "cert.pem", pub_key)
          ∷ (codes "cert-key.pem", priv_key)
          ∷ [])

    -- With `--ca-only`, and without.
    abbrev pub after_mode : Text → Bool → Exec (World S) (Option (Dict Text Text))
    after_mode ca true = pure (some ((codes "ca.pem", ca) ∷ []))
    after_mode ca false = key_pair >>= λ pair. pure (with_pair ca pair)

    abbrev pub after_ca : Option Text → Exec (World S) (Option (Dict Text Text))
    after_ca none = pure none
    after_ca (some ca) = gets (λ w. w.opts.ca_only) >>= after_mode ca

    -- `keys_to_write`
    unfoldable pub keys_to_write : Exec (World S) (Option (Dict Text Text))
    keys_to_write = do ca ← get_ca_certificate; after_ca ca

    -- `os.path.join`, and which files can be opened for writing.
    module _ (join : Text → Text → Text) (writable : Text → Bool) where
      -- The key is written, and its file is then for its owner only: 0o600.
      unfoldable pub write_key : Text → Text → Text → Exec (World S) (Unit {0})
      unfolding put
      write_key cert_path filename key_data w =
          let path = join cert_path filename in
          if writable path
          then (
            ok tt,
            record w { files = put path (record { content = key_data; mode = some 384 }) w.files },
          )
          else (err os_error, w)

      unfoldable pub write_keys : Text → Dict Text Text → Exec (World S) (Unit {0})
      unfolding write_key
      write_keys cert_path [] = pure tt
      write_keys cert_path ((filename, key_data) ∷ keys) =
          write_key cert_path filename key_data >> write_keys cert_path keys

      -- `os.path.realpath`, and the creation of the directory where it is not there.
      module _ (realpath : Text → Text) (exists : Text → S → Bool)
          (makedirs : Text → Exec S (Unit {0})) where
        unfoldable pub ensure_cert_dir : Text → Exec (World S) (Unit {0})
        ensure_cert_dir path = do
          there ← gets (λ w. exists path w.net)
          if there then pure tt else on_net (makedirs path)

        abbrev pub store_all : Text → Option (Dict Text Text) → Exec (World S) Bool
        store_all path none = pure false
        store_all path (some keys) = write_keys path keys >> pure true

        -- The main program; `false` is `sys.exit(1)`.
        unfoldable pub main : Exec (World S) Bool
        main = do
          dir ← gets (λ w. w.opts.cert_dir)
          ensure_cert_dir (realpath dir)
          keys ← keys_to_write
          store_all (realpath dir) keys
