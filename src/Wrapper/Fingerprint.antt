-- ===== src/Wrapper/Fingerprint.antt =====
-- `insert_char_every_n_chars`, and the fingerprints of keys that it prints
-- (sensors/wrapper/sensor_wrapper.py).
use virt_ue_sensing.Base.{
  length-append, ◌<◌, inl, inr, Bool-cases, ◌/◌, ◌≤◌, ℕ, zero, suc, ◌+◌, ◌-◌, ◌≡◌, refl, List, [],
  ◌∷◌, arith, if◌then◌else◌, ltb, length, take, drop,
}
use virt_ue_sensing.Base.Text.{Text}
use virt_ue_sensing.Base.Split.{join_with-two, join_with}
use virt_ue_sensing.Base.Exec.{Result, ok, err, then_result, value_error}

-- `string[i:i + every] for i in range(i, len(string), every)`; `f` is fuel, and `len(string)` rounds
-- are enough for a step above 0.
unfoldable slices : ℕ → Text → ℕ → ℕ → List Text
slices zero s every i = []
slices (suc f) s every i =
    let rest = slices f s every (i + every) in
    if ltb i (length s) then take every (drop i s) ∷ rest else []

-- A step of 0 is refused by `range`.
unfoldable pub insert_char_every_n_chars : Text → ℕ → ℕ → Result Text
unfolding slices
insert_char_every_n_chars s c every =
    if ltb 0 every then ok (join_with (c ∷ []) (slices (length s) s every 0)) else err value_error

-- `RSA.importKey`, its DER export and the two digests are of other packages: `digest` is their
-- composition, which `rsa_public_fingerprint` takes with MD5 and `rsa_private_fingerprint` with SHA-1.
unfoldable pub rsa_fingerprint : (Text → Result Text) → Text → Result Text
unfolding insert_char_every_n_chars
rsa_fingerprint digest pem_data =
    then_result (digest pem_data) λ hex. insert_char_every_n_chars hex b':' 2

length-take : (n : ℕ) (s : Text) → length (take n s) ≡ (if ltb n (length s) then n else length s)
length-take zero [] = ground arith
length-take zero (c ∷ s) = ground arith
length-take (suc n) [] = ground arith
length-take (suc n) (c ∷ s) = ground (arith, length-take n s)

length-drop : (n : ℕ) (s : Text) → length (drop n s) ≡ length s - n
length-drop zero s = omega arith
length-drop (suc n) [] = omega arith
length-drop (suc n) (c ∷ s) = omega (arith, length-drop n s)

slices-past : (f : ℕ) (s : Text) (every i : ℕ) → length s ≤ i → slices f s every i ≡ []
unfolding slices
slices-past zero s every i h = refl
slices-past (suc f) s every i h = ground arith

length-join_with :
    (c : ℕ) (w v : Text) (ws : List Text)
    → length (join_with (c ∷ []) (w ∷ v ∷ ws))
      ≡ length w + suc (length (join_with (c ∷ []) (v ∷ ws)))
length-join_with c w v ws =
    ground (arith, join_with-two c w v ws, length-append w (c ∷ join_with (c ∷ []) (v ∷ ws)))

-- A slice of two in front of the others, which are not empty.
length-join_with_two :
    (c : ℕ) (w : Text) (rest : List Text)
    → 0 < length (join_with (c ∷ []) rest)
    → length (join_with (c ∷ []) (w ∷ rest)) ≡ length w + suc (length (join_with (c ∷ []) rest))
length-join_with_two c w [] h = absurd (ground arith)
length-join_with_two c w (v ∷ ws) h = length-join_with c w v ws

-- From the index i on: the characters left, and a separator in front of every slice but the first.
slices-length :
    (f : ℕ) (s : Text) (c i : ℕ)
    → length s ≤ f + i
    → length (join_with (c ∷ []) (slices f s 2 i)) ≡ (length s - i) + (length s - i - 1) / 2
unfolding slices
slices-length zero s c i h = ground arith
slices-length (suc f) s c i h = elim (Bool-cases (ltb (i + 2) (length s))) [
  | inl inside ↦ ground (
    arith,
    slices-length f s c (i + 2),
    length-join_with_two c (take 2 (drop i s)) (slices f s 2 (i + 2)),
    length-take 2 (drop i s),
    length-drop i s,
  )
  | inr last ↦ ground (arith, slices-past f s 2 (i + 2), length-take 2 (drop i s), length-drop i s)
]

-- When the digest is computed there is a fingerprint, which has a character more for each two of the
-- digest's before its last: 47 of the 32 of MD5, 59 of the 40 of SHA-1.
pub rsa_fingerprint-length :
    (digest : Text → Result Text) (pem_data hex : Text)
    → digest pem_data ≡ ok hex
    → (shown : Text) × (rsa_fingerprint digest pem_data ≡ ok shown)
      × (length shown ≡ length hex + (length hex - 1) / 2)
unfolding rsa_fingerprint insert_char_every_n_chars
rsa_fingerprint-length digest pem_data hex e = (
  join_with (b':' ∷ []) (slices (length hex) hex 2 0),
  ground arith,
  ground (arith, slices-length (length hex) hex b':' 0),
)
