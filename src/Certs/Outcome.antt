-- ===== src/Certs/Outcome.antt =====
-- What the main program of the certificate tool leaves.
use virt_ue_sensing.Base.{
  ◌≡◌, refl, ap, sym, ◌∙◌, ◌⊎◌, inl, inr, Bool, true, false, Option, some, none, [], ◌∷◌,
  Bool-cases, arith,
}
use mathlib.Core.Path.{subst}
use virt_ue_sensing.Base.Text.{Text, codes, text_Eq}
use virt_ue_sensing.Base.Dict.{Dict, put}
use virt_ue_sensing.Base.Exec.{Result, ok, Exec, pure, ◌>>=◌, bind_ok}
use virt_ue_sensing.Certs.{
  CertOptions, File, World, CaRequest, SigningRequest, Response, get_ca_certificate, key_pair,
  with_pair, after_ca, keys_to_write, write_key, write_keys, ensure_cert_dir, store_all, main,
}
use virt_ue_sensing.Certs.{after_mode}
use virt_ue_sensing.Certs.Answers.{
  FromInfo, FromNewkey, settled, get_ca_certificate-FromInfo, key_pair-FromNewkey,
}
use virt_ue_sensing.Certs.Requests.{
  get_ca_certificate-opts, get_ca_certificate-files, key_pair-files,
}

-- The files with the keys, each for its owner only.
unfoldable pub with_keys : (Text → Text) → Dict Text Text → Dict Text File → Dict Text File
unfolding put
with_keys path [] files = files
with_keys path ((name, key) ∷ keys) files =
    with_keys path keys (put (path name) (record { content = key; mode = some 384 }) files)

module _ {ℓ} {S : Type ℓ} (post retry : Text → CaRequest → Exec S Response)
    (fromhex : Text → Result Text) (hmac_sha256 : Text → Text → Text) (b64encode : Text → Text)
    (dumps : SigningRequest → Text) where
  module _ (environ : Dict Text Text) (gethostname : Option Text) where
    -- The keys that are asked for, each with the answers that it comes from: that of the authority,
    -- and without `--ca-only` a pair behind it.
    pub data Complete (o : CertOptions) (n : S) : Dict Text Text → Type ℓ where
      only_ca :
          (ca : Text) (m : S)
          → o.ca_only ≡ true
          → FromInfo post retry fromhex hmac_sha256 b64encode dumps o n ca m
          → Complete o n ((codes "ca.pem", ca) ∷ [])
      all_keys :
          (ca pub_key priv_key : Text) (m k : S)
          → o.ca_only ≡ false
          → FromInfo post retry fromhex hmac_sha256 b64encode dumps o n ca m
          → FromNewkey post retry fromhex hmac_sha256 b64encode dumps
              (settled environ gethostname o)
              m
              pub_key
              priv_key
              k
          → Complete o n (
              (codes "ca.pem", ca)
              ∷ (codes "cert.pem", pub_key)
              ∷ (codes "cert-key.pem", priv_key)
              ∷ [])

    -- What is to be written is nothing, or complete.
    abbrev MadeOf : CertOptions → S → Option (Dict Text Text) → Type ℓ
    MadeOf o n keys = (keys ≡ none) ⊎ ((k : Dict Text Text) × (keys ≡ some k) × Complete o n k)

    with_pair-Complete :
        (ca : Text) (pair : Option (Text × Text)) (n : S) (w u : World S)
        → w.opts.ca_only ≡ false
        → FromInfo post retry fromhex hmac_sha256 b64encode dumps w.opts n ca w.net
        → key_pair post retry fromhex hmac_sha256 b64encode dumps environ gethostname w
          ≡ (ok pair, u)
        → MadeOf w.opts n
            (with_pair post retry fromhex hmac_sha256 b64encode dumps environ gethostname ca pair)
    with_pair-Complete ca none n w u only from e = inl refl
    with_pair-Complete ca (some (pub_key, priv_key)) n w u only from e = inr (
      (codes "ca.pem", ca) ∷ (codes "cert.pem", pub_key) ∷ (codes "cert-key.pem", priv_key) ∷ [],
      refl,
      all_keys ca pub_key priv_key w.net u.net only from (
          key_pair-FromNewkey post retry fromhex hmac_sha256 b64encode dumps environ gethostname
            pub_key priv_key w u e),
    )

    after_mode-Complete :
        (ca : Text) (only : Bool) (keys : Option (Dict Text Text)) (n : S) (w v : World S)
        → w.opts.ca_only ≡ only
        → FromInfo post retry fromhex hmac_sha256 b64encode dumps w.opts n ca w.net
        → after_mode post retry fromhex hmac_sha256 b64encode dumps environ gethostname ca only w
          ≡ (ok keys, v)
        → (v.files ≡ w.files) × MadeOf w.opts n keys
    after_mode-Complete ca true keys n w v o from e =
        (ap (λ p. p.1.files) (sym e), inr ((codes "ca.pem", ca) ∷ [], cc, only_ca ca w.net o from))
    after_mode-Complete ca false keys n w v o from e =
        let (pair, u, r, e1) =
          bind_ok (key_pair post retry fromhex hmac_sha256 b64encode dumps environ gethostname)
            (λ pair. pure (
              with_pair post retry fromhex hmac_sha256 b64encode dumps environ gethostname ca pair))
            w v keys e in
        let made : with_pair post retry fromhex hmac_sha256 b64encode dumps environ gethostname ca
              pair
            ≡ keys =
          cc in
        (
          ap (λ p. p.1.files) (sym e1)
              ∙ (ap (λ p. p.1.files) (sym r)
                  ∙ key_pair-files post retry fromhex hmac_sha256 b64encode dumps environ
                      gethostname w),
          subst (MadeOf w.opts n)
              {x = with_pair post retry fromhex hmac_sha256 b64encode dumps environ gethostname ca
                pair}
              {y = keys} made (with_pair-Complete ca pair n w u o from r),
        )

    after_ca-Complete :
        (ca : Option Text) (keys : Option (Dict Text Text)) (w u v : World S)
        → u.opts ≡ w.opts
        → get_ca_certificate post retry fromhex hmac_sha256 b64encode dumps w ≡ (ok ca, u)
        → after_ca post retry fromhex hmac_sha256 b64encode dumps environ gethostname ca u
          ≡ (ok keys, v)
        → (v.files ≡ u.files) × MadeOf u.opts w.net keys
    after_ca-Complete none keys w u v o r e = (ap (λ p. p.1.files) (sym e), inl (cc))
    after_ca-Complete (some ca) keys w u v o r e =
        let from =
          get_ca_certificate-FromInfo post retry fromhex hmac_sha256 b64encode dumps ca w u r in
        after_mode-Complete ca u.opts.ca_only keys w.net u v refl
          (subst (λ o. FromInfo post retry fromhex hmac_sha256 b64encode dumps o w.net ca u.net)
            {x = w.opts} {y = u.opts} (sym o) from)
          e

    keys_to_write-Complete :
        (keys : Option (Dict Text Text)) (w v : World S)
        → keys_to_write post retry fromhex hmac_sha256 b64encode dumps environ gethostname w
          ≡ (ok keys, v)
        → (v.files ≡ w.files) × MadeOf w.opts w.net keys
    unfolding keys_to_write
    keys_to_write-Complete keys w v e =
        let (ca, u, r, e1) =
          bind_ok (get_ca_certificate post retry fromhex hmac_sha256 b64encode dumps)
            (after_ca post retry fromhex hmac_sha256 b64encode dumps environ gethostname) w v keys
            e in
        let opts : u.opts ≡ w.opts =
          ap (λ p. p.1.opts) (sym r)
          ∙ get_ca_certificate-opts post retry fromhex hmac_sha256 b64encode dumps w in
        let files : u.files ≡ w.files =
          ap (λ p. p.1.files) (sym r)
          ∙ get_ca_certificate-files post retry fromhex hmac_sha256 b64encode dumps w in
        let (f, c) = after_ca-Complete ca keys w u v opts r e1 in
        (f ∙ files, subst (λ o. MadeOf o w.net keys) {x = u.opts} {y = w.opts} opts c)

    module _ (join : Text → Text → Text) (writable : Text → Bool) where
      write_key-files :
          (path name key : Text) (w v : World S)
          → write_key post retry fromhex hmac_sha256 b64encode dumps environ gethostname join
              writable path name key w
            ≡ (ok tt, v)
          → v.files ≡ put (join path name) (record { content = key; mode = some 384 }) w.files
      unfolding write_key
      write_key-files path name key w v e = elim (Bool-cases (writable (join path name))) [
        | inl allowed ↦ ground arith
        | inr refused ↦ absurd (ground arith)
      ]

      write_keys-with_keys :
          (path : Text) (keys : Dict Text Text) (w v : World S)
          → write_keys post retry fromhex hmac_sha256 b64encode dumps environ gethostname join
              writable path keys w
            ≡ (ok tt, v)
          → v.files ≡ with_keys (join path) keys w.files
      unfolding write_keys with_keys
      write_keys-with_keys path [] w v e = ap (λ p. p.1.files) (sym e)
      write_keys-with_keys path ((name, key) ∷ keys) w v e =
          let (_, u, r, e1) =
            bind_ok
              (write_key post retry fromhex hmac_sha256 b64encode dumps environ gethostname join
                writable path name key)
              (λ _.
                write_keys post retry fromhex hmac_sha256 b64encode dumps environ gethostname join
                  writable path keys)
              w v tt e in
          let here = write_key-files path name key w u r in
          write_keys-with_keys path keys u v e1 ∙ ap (with_keys (join path) keys) here

      module _ (realpath : Text → Text) (exists : Text → S → Bool)
          (makedirs : Text → Exec S (Unit {0})) where
        ensure_cert_dir-files :
            (path : Text) (w : World S)
            → (ensure_cert_dir post retry fromhex hmac_sha256 b64encode dumps environ gethostname
                join writable realpath exists makedirs path w).1.files
              ≡ w.files
        unfolding ensure_cert_dir
        ensure_cert_dir-files path w = ground arith

        ensure_cert_dir-opts :
            (path : Text) (w : World S)
            → (ensure_cert_dir post retry fromhex hmac_sha256 b64encode dumps environ gethostname
                join writable realpath exists makedirs path w).1.opts
              ≡ w.opts
        unfolding ensure_cert_dir
        ensure_cert_dir-opts path w = ground arith

        -- What the main program leaves on the files, from the options and the files that it starts from
        -- and the network as it is at its first request.
        Left : CertOptions → S → Dict Text File → Bool → Dict Text File → Type ℓ
        Left opts n before done after =
            ((done ≡ false) × (after ≡ before))
            ⊎ ((done ≡ true)
                × ((keys : Dict Text Text) × Complete opts n keys
                    × (after ≡ with_keys (join (realpath opts.cert_dir)) keys before)))

        store_all-Left :
            (opts : CertOptions) (n : S) (keys : Option (Dict Text Text)) (w v : World S)
            (done : Bool)
            → MadeOf opts n keys
            → store_all post retry fromhex hmac_sha256 b64encode dumps environ gethostname join
                writable realpath exists makedirs
                (realpath opts.cert_dir)
                keys
                w
              ≡ (ok done, v)
            → Left opts n w.files done v.files
        unfolding Left
        store_all-Left opts n none w v done c e = inl (cc, ap (λ p. p.1.files) (sym e))
        store_all-Left opts n (some keys) w v done (inl bad) e = absurd cc
        store_all-Left opts n (some keys) w v done (inr (k, same, c)) e =
            let path = realpath opts.cert_dir in
            let (_, u, r, e1) =
              bind_ok
                (write_keys post retry fromhex hmac_sha256 b64encode dumps environ gethostname join
                  writable path keys)
                (λ _. pure true) w v done e in
            let written = write_keys-with_keys path keys w u r in
            inr (
              cc,
              (
                k,
                c,
                ap (λ p. p.1.files) (sym e1)
                    ∙ (written ∙ ap (λ l. with_keys (join path) l w.files) (cc)),
              ),
            )

        -- When the main program ends without an exception, it has exited with status 1 and written
        -- nothing, or it has written the keys that are asked for, each for its owner only: ca.pem is
        -- the certificate of the authority's answer to `info`, and without `--ca-only` cert-key.pem
        -- is the private key of its answer to `newkey`, and cert.pem the certificate of its answer to
        -- `authsign` for the certificate request that came with that private key. The three requests
        -- are sent one after the other once the directory is there.
        pub main-writes :
            (w v : World S) (done : Bool)
            → main post retry fromhex hmac_sha256 b64encode dumps environ gethostname join writable
                realpath exists makedirs w
              ≡ (ok done, v)
            → ((done ≡ false) × (v.files ≡ w.files))
              ⊎ ((done ≡ true)
                  × ((keys : Dict Text Text) × Complete w.opts
                        (ensure_cert_dir post retry fromhex hmac_sha256 b64encode dumps environ
                          gethostname join writable realpath exists makedirs
                          (realpath w.opts.cert_dir)
                          w).1.net
                        keys
                      × (v.files ≡ with_keys (join (realpath w.opts.cert_dir)) keys w.files)))
        unfolding main Left
        main-writes w v done e =
            let path = realpath w.opts.cert_dir in
            let ensure =
              ensure_cert_dir post retry fromhex hmac_sha256 b64encode dumps environ gethostname
                join writable realpath exists makedirs path in
            let (_, u, r, e1) =
              bind_ok ensure
                (λ _.
                  keys_to_write post retry fromhex hmac_sha256 b64encode dumps environ gethostname
                  >>= store_all post retry fromhex hmac_sha256 b64encode dumps environ gethostname
                      join writable realpath exists makedirs path)
                w v done e in
            let opts : u.opts ≡ w.opts = ap (λ p. p.1.opts) (sym r) ∙ ensure_cert_dir-opts path w in
            let files : u.files ≡ w.files =
              ap (λ p. p.1.files) (sym r) ∙ ensure_cert_dir-files path w in
            let net : u.net ≡ (ensure w).1.net = ap (λ p. p.1.net) (sym r) in
            let (keys, x, k, e2) =
              bind_ok
                (keys_to_write post retry fromhex hmac_sha256 b64encode dumps environ gethostname)
                (store_all post retry fromhex hmac_sha256 b64encode dumps environ gethostname join
                  writable realpath exists makedirs path)
                u v done e1 in
            let (same, c) = keys_to_write-Complete keys u x k in
            let made =
              subst (λ n. MadeOf w.opts n keys) {x = u.net} {y = (ensure w).1.net} net
                (subst (λ o. MadeOf o u.net keys) {x = u.opts} {y = w.opts} opts c) in
            subst (λ f. Left w.opts (ensure w).1.net f done v.files) {x = x.files} {y = w.files}
              (same ∙ files) (store_all-Left w.opts (ensure w).1.net keys x v done made e2)
