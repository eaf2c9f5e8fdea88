-- ===== src/Wrapper/Api/Pinning.antt =====
-- Only the API whose certificate was pinned signs and registers.
use virt_ue_sensing.Base.{◌≡◌, ◌≢◌, some, true, arith, inl, inr, Option-cases}
use virt_ue_sensing.Base.Text.{codes, Text, text_eq_sound}
use virt_ue_sensing.Base.Exec.{then_result, Result-cases, ok}
use virt_ue_sensing.Wrapper.Api.{
  as_text, field, Json, http_put, signed_put, Sensor, Server, send, get_signed_public_key, der,
  Answer, build_response, cu_build_response, is_pinned,
}

-- A response of `curequests` is pinned only when its connection had the pinned certificate.
pub cu_pinned :
    (a : Answer) (c : Text)
    → is_pinned (cu_build_response a).peercert (some (der c)) ≡ ok true
    → a.sock_cert ≡ some c
unfolding is_pinned cu_build_response
cu_pinned a c e = elim (Option-cases a.sock_cert) [
  | inl no_cert ↦ absurd (ground arith)
  | inr (d, f) ↦ ground (arith, text_eq_sound d c)
]

-- A response of `requests` is never found pinned against a certificate in DER form.
pub requests_pinned :
    (a : Answer) (c : Text) → is_pinned (build_response a).peercert (some (der c)) ≢ ok true
unfolding is_pinned build_response
requests_pinned a c e = elim (Option-cases a.sock_cert) [
  | inl no_cert ↦ ground arith
  | inr (d, f) ↦ ground arith
]

-- When a certificate is pinned in DER form and a public key is returned, the server has answered the
-- request to sign this csr, with status 200 and over a connection that had that certificate, and the
-- key is what that answer's JSON has under "certificate".
pub get_signed_public_key-pinned :
    (server : Server) (csr key c : Text) (s : Sensor)
    → s.api_public_certificate ≡ some (der c)
    → (get_signed_public_key server csr s).0 ≡ ok (some key)
    → (a : Answer) × (json : Json) × ((server s.events (http_put (signed_put csr s))).0 ≡ ok a)
      × (a.status_code ≡ 200)
      × (a.sock_cert ≡ some c)
      × (a.json ≡ ok json)
      × (then_result (field (codes "certificate") json) as_text ≡ ok key)
unfolding get_signed_public_key send
get_signed_public_key-pinned server csr key c s pinned e =
    elim (Result-cases (server s.events (http_put (signed_put csr s))).0) [
      | inr (x, f) ↦ absurd (ground arith)
      | inl (a, f) ↦ elim (Result-cases a.json) [
        | inr (x, g) ↦ absurd (ground arith)
        | inl (json, g) ↦
            elim (Result-cases (then_result (field (codes "certificate") json) as_text)) [
              | inr (x, h) ↦ absurd (ground arith)
              | inl (found, h) ↦
                  (a, json, f, ground arith, cu_pinned a c (ground arith), g, ground arith)
            ]
      ]
    ]
