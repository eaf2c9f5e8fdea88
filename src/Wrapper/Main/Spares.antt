-- ===== src/Wrapper/Main/Spares.antt =====
-- What the requests for keys leave alone.
use virt_ue_sensing.Base.{
  ◌⊎◌, ◌∙◌, Option-cases, inl, inr, sym, inl, inr, Bool-cases, [], [], ◌≡◌, ◌≢◌, arith, ◌∙◌,
}
use virt_ue_sensing.Base.Text.{codes, Text, text_Eq}
use virt_ue_sensing.Base.Dict.{put, get-put_ne, get}
use virt_ue_sensing.Base.Exec.{then_result, Result-cases}
use virt_ue_sensing.Wrapper.Api.{
  Keys, spawned, challenge_server, note, note, Json, field, truthy, as_text, root_get,
  build_response, Server, Sensor, ca_path, get_root_ca_pubkey, root_ca_answer,
  get_private_key_and_csr, private_key_answer, get_signed_public_key, send,
}
use virt_ue_sensing.Wrapper.Main.{certify, Packages, request_keys}

-- The options and the file of this path are as before.
pub record Spares (path : Text) (s t : Sensor) : Type 0 where
  pub opts : t.opts ≡ s.opts
  pub file : get path t.files ≡ get path s.files

private_key-Spares :
    (path : Text) (server : Server) (s : Sensor)
    → Spares path s (get_private_key_and_csr server s).1
unfolding get_private_key_and_csr private_key_answer send
private_key-Spares path server s = record { opts = ground arith; file = ground arith }

signed-Spares :
    (path csr : Text) (server : Server) (s : Sensor)
    → Spares path s (get_signed_public_key server csr s).1
unfolding get_signed_public_key send
signed-Spares path csr server s = record { opts = ground arith; file = ground arith }

-- The file that is opened, and then written when the answer has a certificate.
root_ca_answer-file :
    (path : Text) (json : Json) (s : Sensor)
    → path ≢ ca_path s
    → get path (root_ca_answer json s).1.files ≡ get path s.files
unfolding root_ca_answer
root_ca_answer-file path json s n = elim (Result-cases (field (codes "error") json)) [
  | inr (x, e) ↦ ground arith
  | inl (v, e) ↦ elim (Bool-cases (truthy v)) [
    | inl failed ↦ ground arith
    | inr fine ↦
        let opened = get-put_ne (ca_path s) path [] s.files (λ same. n (sym same)) in
        elim (Result-cases (then_result (field (codes "certificate") json) as_text)) [
          | inr (x, f) ↦ ground arith
          | inl (pem, f) ↦
              let written =
                get-put_ne (ca_path s) path pem (put (ca_path s) [] s.files)
                  (λ same. n (sym same)) in
              ground arith
        ]
  ]
]

root_ca_answer-opts : (json : Json) (s : Sensor) → (root_ca_answer json s).1.opts ≡ s.opts
unfolding root_ca_answer
root_ca_answer-opts json s = ground arith

root-Spares :
    (path : Text) (server : Server) (s : Sensor)
    → path ≢ ca_path s
    → Spares path s (get_root_ca_pubkey server s).1
unfolding get_root_ca_pubkey send
root-Spares path server s n = elim (Result-cases (server s.events (root_get s)).0) [
  | inr (x, e) ↦ record { opts = ground arith; file = ground arith }
  | inl (a, e) ↦ elim (Result-cases a.json) [
    | inr (y, f) ↦ record { opts = ground arith; file = ground arith }
    | inl (json, f) ↦
        let t = (send server build_response (root_get s) s).1 in
        record {
          opts = ground (arith, root_ca_answer-opts json t);
          file = ground (arith, root_ca_answer-file path json t n);
        }
  ]
]

certify-Spares :
    (pkg : Packages) (server : Server) (path : Text) (keys : Keys) (s : Sensor)
    → Spares path s (certify pkg server keys s).1
unfolding certify
certify-Spares pkg server path keys s =
    let v = note (spawned (challenge_server keys.challenge)) s in
    let signed = signed-Spares path keys.certificate_request server v in
    record { opts = ground (arith, signed.opts); file = ground (arith, signed.file) }

Spares-trans : {path : Text} {r s t : Sensor} → Spares path r s → Spares path s t → Spares path r t
Spares-trans a b = record { opts = b.opts ∙ a.opts; file = b.file ∙ a.file }

-- The state in which the requests end: after the root certificate, after the private key, or after
-- the challenge cycle.
request_keys-ends :
    (pkg : Packages) (server : Server) (s : Sensor)
    → let t = (get_root_ca_pubkey server s).1 in
      let u = (get_private_key_and_csr server t).1 in
      let end = (request_keys pkg server s).1 in
      (end ≡ t) ⊎ ((end ≡ u) ⊎ ((keys : Keys) × (end ≡ (certify pkg server keys u).1)))
unfolding request_keys
request_keys-ends pkg server s =
    let t = (get_root_ca_pubkey server s).1 in
    elim (Result-cases (get_root_ca_pubkey server s).0) [
      | inr (x, e) ↦ inl (ground arith)
      | inl ((sure, pem), e) ↦ elim (Bool-cases sure) [
        | inr refused ↦ inl (ground arith)
        | inl granted ↦ elim (Result-cases (get_private_key_and_csr server t).0) [
          | inr (x, f) ↦ inr (inl (ground arith))
          | inl (option, f) ↦ elim (Option-cases option) [
            | inl nothing ↦ inr (inl (ground arith))
            | inr (keys, g) ↦ inr (inr (keys, ground arith))
          ]
        ]
      ]
    ]

-- The requests for the keys change no option and no file but the CA's certificate, also when one of
-- them fails.
pub request_keys-Spares :
    (pkg : Packages) (server : Server) (path : Text) (s : Sensor)
    → path ≢ ca_path s
    → Spares path s (request_keys pkg server s).1
request_keys-Spares pkg server path s n =
    let root = root-Spares path server s n in
    let t = (get_root_ca_pubkey server s).1 in
    let private = Spares-trans root (private_key-Spares path server t) in
    let u = (get_private_key_and_csr server t).1 in
    elim (request_keys-ends pkg server s) [
      | inl e ↦ rw e root
      | inr (inl e) ↦ rw e private
      | inr (inr (keys, e)) ↦ rw e (Spares-trans private (certify-Spares pkg server path keys u))
    ]
