-- ===== src/Certs/Answers.antt =====
-- Which answers of the authority the keys of the certificate tool come from.
use virt_ue_sensing.Base.{
  ◌≡◌, refl, ap, ◌∙◌, inl, inr, Bool, true, false, Option, some, none, arith, Option-cases,
}
use mathlib.Core.Path.{subst}
use virt_ue_sensing.Base.Text.{Text, codes, text_Eq}
use virt_ue_sensing.Base.Dict.{Dict, get}
use virt_ue_sensing.Base.Exec.{Result, ok, Exec, bind_ok, then_result, Result-cases}
use virt_ue_sensing.Certs.{
  CertOptions, World, CaRequest, info, newkey, authsign, SigningRequest, Response, CaAnswer, url,
  answer_of, secret_of, get_ca_certificate, sign_key, get_keys, have_shared_secret, have_hostname,
  key_pair, keys_for_host, keys_with_secret,
}

abbrev or_else {ℓ} : {A : Type ℓ} → Option A → Option A → Option A
or_else (some a) o = some a
or_else none o = o

-- The options when the secret and the host name are filled in.
abbrev pub settled : Dict Text Text → Option Text → CertOptions → CertOptions
settled environ gethostname o = record o {
  cfssl_secret = or_else o.cfssl_secret (get (codes "CFSSL_SHARED_SECRET") environ);
  hostname = or_else o.hostname gethostname;
}

module _ {ℓ} {S : Type ℓ} (post retry : Text → CaRequest → Exec S Response)
    (fromhex : Text → Result Text) (hmac_sha256 : Text → Text → Text) (b64encode : Text → Text)
    (dumps : SigningRequest → Text) where
  -- The call takes the network from `n` to `m`, and what it answers has status 200 and success.
  abbrev pub Answered : Exec S Response → S → CaAnswer → S → Type ℓ
  Answered call n p m =
      (res : Response) × (call n ≡ (ok res, m))
      × (answer_of post retry fromhex hmac_sha256 b64encode dumps res ≡ ok (some p))

  -- The certificate of the authority is that of its answer to `info`.
  pub record FromInfo (o : CertOptions) (n : S) (ca : Text) (m : S) : Type ℓ where
    pub payload : CaAnswer
    pub answered : Answered (retry (url (codes "info") o) (info (codes "primary"))) n payload m
    pub certificate : payload.result (codes "certificate") ≡ ok ca

  -- The public key is the certificate in the answer to the signed request for this csr.
  pub record FromSigning (o : CertOptions) (n : S) (csr pub_key : Text) (m : S) : Type ℓ where
    pub secret : Text
    pub secret_is :
        then_result (secret_of post retry fromhex hmac_sha256 b64encode dumps o) fromhex ≡ ok secret
    pub payload : CaAnswer
    pub answered :
        let text = dumps (record { request_hostname = o.hostname; certificate_request = csr }) in
        Answered
          (post
            (url (codes "authsign") o)
            (authsign (b64encode text) (b64encode (hmac_sha256 secret text))))
          n
          payload
          m
    pub certificate : payload.result (codes "certificate") ≡ ok pub_key

  -- The private key is that of the answer to `newkey`, whose csr was signed.
  pub record FromNewkey (o : CertOptions) (n : S) (pub_key priv_key : Text) (m : S) : Type ℓ where
    pub payload : CaAnswer
    pub csr : Text
    pub between : S
    pub answered :
        Answered
          (post (url (codes "newkey") o) (newkey o.cert_algo o.cert_size o.hostname))
          n
          payload
          between
    pub private_key : payload.result (codes "private_key") ≡ ok priv_key
    pub request : payload.result (codes "certificate_request") ≡ ok csr
    pub signed : FromSigning o between csr pub_key m

  pub get_ca_certificate-FromInfo :
      (ca : Text) (w u : World S)
      → get_ca_certificate post retry fromhex hmac_sha256 b64encode dumps w ≡ (ok (some ca), u)
      → FromInfo w.opts w.net ca u.net
  unfolding get_ca_certificate
  get_ca_certificate-FromInfo ca w u e =
      let call = retry (url (codes "info") w.opts) (info (codes "primary")) in
      elim (Result-cases (call w.net).0) [
        | inr (x, f) ↦ absurd (ground arith)
        | inl (res, f) ↦
            elim (Result-cases (answer_of post retry fromhex hmac_sha256 b64encode dumps res)) [
              | inr (x, g) ↦ absurd (ground arith)
              | inl (o, g) ↦ elim (Option-cases o) [
                | inl h ↦ absurd (ground arith)
                | inr (p, h) ↦ elim (Result-cases (p.result (codes "certificate"))) [
                  | inr (x, k) ↦ absurd (ground arith)
                  | inl (c, k) ↦ record {
                    payload = p;
                    answered = (res, ground arith, ground arith);
                    certificate = ground arith;
                  }
                ]
              ]
            ]
      ]

  sign_key-FromSigning :
      (csr priv_key a b : Text) (w u : World S)
      → sign_key post retry fromhex hmac_sha256 b64encode dumps priv_key csr w
        ≡ (ok (some (a, b)), u)
      → (b ≡ priv_key) × FromSigning w.opts w.net csr a u.net
  unfolding sign_key
  sign_key-FromSigning csr priv_key a b w u e =
      let text = dumps (record { request_hostname = w.opts.hostname; certificate_request = csr }) in
      elim (Result-cases
        (then_result (secret_of post retry fromhex hmac_sha256 b64encode dumps w.opts) fromhex)) [
          | inr (x, f) ↦ absurd (ground arith)
          | inl (s, f) ↦
              let call =
                post (url (codes "authsign") w.opts)
                  (authsign (b64encode text) (b64encode (hmac_sha256 s text))) in
              elim (Result-cases (call w.net).0) [
                | inr (x, g) ↦ absurd (ground arith)
                | inl (res, g) ↦
                    elim (Result-cases
                      (answer_of post retry fromhex hmac_sha256 b64encode dumps res)) [
                        | inr (x, h) ↦ absurd (ground arith)
                        | inl (o, h) ↦ elim (Option-cases o) [
                          | inl k ↦ absurd (ground arith)
                          | inr (p, k) ↦ elim (Result-cases (p.result (codes "certificate"))) [
                            | inr (x, l) ↦ absurd (ground arith)
                            | inl (c, l) ↦ (
                              ground arith,
                              record {
                                secret = s;
                                secret_is = f;
                                payload = p;
                                answered = (res, ground arith, ground arith);
                                certificate = ground arith;
                              },
                            )
                          ]
                        ]
                      ]
              ]
        ]

  pub get_keys-FromNewkey :
      (a b : Text) (w u : World S)
      → get_keys post retry fromhex hmac_sha256 b64encode dumps w ≡ (ok (some (a, b)), u)
      → FromNewkey w.opts w.net a b u.net
  unfolding get_keys
  get_keys-FromNewkey a b w u e =
      let o = w.opts in
      let call = post (url (codes "newkey") o) (newkey o.cert_algo o.cert_size o.hostname) in
      elim (Result-cases (call w.net).0) [
        | inr (x, f) ↦ absurd (ground arith)
        | inl (res, f) ↦
            elim (Result-cases (answer_of post retry fromhex hmac_sha256 b64encode dumps res)) [
              | inr (x, g) ↦ absurd (ground arith)
              | inl (q, g) ↦ elim (Option-cases q) [
                | inl h ↦ absurd (ground arith)
                | inr (p, h) ↦ elim (Result-cases (p.result (codes "private_key"))) [
                  | inr (x, k) ↦ absurd (ground arith)
                  | inl (key, k) ↦ elim (Result-cases (p.result (codes "certificate_request"))) [
                    | inr (x, l) ↦ absurd (ground arith)
                    | inl (csr, l) ↦
                        let v : World S = record w { net = (call w.net).1 } in
                        let signed : sign_key post retry fromhex hmac_sha256 b64encode dumps key csr
                              v
                            ≡ (ok (some (a, b)), u) =
                          ground arith in
                        let (same, from) = sign_key-FromSigning csr key a b v u signed in
                        record {
                          payload = p;
                          csr = csr;
                          between = (call w.net).1;
                          answered = (res, ground arith, ground arith);
                          private_key = ground arith;
                          request = l;
                          signed = from;
                        }
                  ]
                ]
              ]
            ]
      ]

  module _ (environ : Dict Text Text) (gethostname : Option Text) where
    have_shared_secret-settled :
        (w u : World S)
        → have_shared_secret post retry fromhex hmac_sha256 b64encode dumps environ w ≡ (ok true, u)
        → (u.opts ≡ record w.opts {
          cfssl_secret = or_else w.opts.cfssl_secret (get (codes "CFSSL_SHARED_SECRET") environ);
        })
          × (u.net ≡ w.net)
    unfolding have_shared_secret
    have_shared_secret-settled w u e = elim (Option-cases w.opts.cfssl_secret) [
      | inr (s, f) ↦ (ground arith, ground arith)
      | inl f ↦ elim (Option-cases (get (codes "CFSSL_SHARED_SECRET") environ)) [
        | inr (s, g) ↦ (ground arith, ground arith)
        | inl g ↦ absurd (ground arith)
      ]
    ]

    have_hostname-settled :
        (w u : World S)
        → have_hostname post retry fromhex hmac_sha256 b64encode dumps gethostname w ≡ (ok true, u)
        → (u.opts ≡ record w.opts { hostname = or_else w.opts.hostname gethostname })
          × (u.net ≡ w.net)
    unfolding have_hostname
    have_hostname-settled w u e = elim (Option-cases w.opts.hostname) [
      | inr (h, f) ↦ (ground arith, ground arith)
      | inl f ↦ (ground arith, ground arith)
    ]

    keys_for_host-FromNewkey :
        (host : Bool) (a b : Text) (w u : World S)
        → keys_for_host post retry fromhex hmac_sha256 b64encode dumps environ gethostname host w
          ≡ (ok (some (a, b)), u)
        → (host ≡ true) × FromNewkey w.opts w.net a b u.net
    keys_for_host-FromNewkey true a b w u e = (refl, get_keys-FromNewkey a b w u e)
    keys_for_host-FromNewkey false a b w u e = absurd (ground arith)

    keys_with_secret-FromNewkey :
        (secret : Bool) (a b : Text) (w u : World S)
        → keys_with_secret post retry fromhex hmac_sha256 b64encode dumps environ gethostname secret
            w
          ≡ (ok (some (a, b)), u)
        → (secret ≡ true)
          × FromNewkey
              (record w.opts { hostname = or_else w.opts.hostname gethostname })
              w.net
              a
              b
              u.net
    keys_with_secret-FromNewkey false a b w u e = absurd (ground arith)
    keys_with_secret-FromNewkey true a b w u e =
        let (host, v, r, e1) =
          bind_ok (have_hostname post retry fromhex hmac_sha256 b64encode dumps gethostname)
            (keys_for_host post retry fromhex hmac_sha256 b64encode dumps environ gethostname) w u
            (some (a, b)) e in
        let (h, from) = keys_for_host-FromNewkey host a b v u e1 in
        let (opts, net) = have_hostname-settled w v (r ∙ ap (λ x. (ok x, v)) h) in
        (
          refl,
          subst (λ o. FromNewkey o w.net a b u.net) {x = v.opts}
              {y = record w.opts { hostname = or_else w.opts.hostname gethostname }} opts
              (subst (λ n. FromNewkey v.opts n a b u.net) {x = v.net} {y = w.net} net from),
        )

    -- The pair of keys, with the secret and the host name filled in.
    pub key_pair-FromNewkey :
        (a b : Text) (w u : World S)
        → key_pair post retry fromhex hmac_sha256 b64encode dumps environ gethostname w
          ≡ (ok (some (a, b)), u)
        → FromNewkey (settled environ gethostname w.opts) w.net a b u.net
    unfolding key_pair
    key_pair-FromNewkey a b w u e =
        let (secret, v, r, e1) =
          bind_ok (have_shared_secret post retry fromhex hmac_sha256 b64encode dumps environ)
            (keys_with_secret post retry fromhex hmac_sha256 b64encode dumps environ gethostname) w
            u (some (a, b)) e in
        let (h, from) = keys_with_secret-FromNewkey secret a b v u e1 in
        let (opts, net) = have_shared_secret-settled w v (r ∙ ap (λ x. (ok x, v)) h) in
        subst
          (λ o. FromNewkey (record o { hostname = or_else o.hostname gethostname }) w.net a b u.net)
          {x = v.opts}
          {y = record w.opts {
            cfssl_secret = or_else w.opts.cfssl_secret (get (codes "CFSSL_SHARED_SECRET") environ);
          }}
          opts
          (subst
            (λ n.
              FromNewkey (record v.opts { hostname = or_else v.opts.hostname gethostname }) n a b
                u.net)
            {x = v.net} {y = w.net} net from)
