-- ===== src/Base/Split.antt =====
-- `str.split`, `str.join` and `str.strip` on text.
use Prim.Native.Nat.{ℕ}
use mathlib.Core.Path.{◌≡◌}
use mathlib.Core.Logic.{inl, inr}
use mathlib.Core.Path.{◌≡◌, refl}
use mathlib.Core.Bool.{Bool, true, false, ◌&&◌, ◌||◌}
use native.Mathlib.Omega.{arith}
use mathlib.Core.List.{List, [], ◌∷◌, ◌++◌}
use virt_ue_sensing.Base.Tests.{Bool-cases, ==_iff, Bool-cases, ◌==◌, leb, if◌then◌else◌}
use virt_ue_sensing.Base.Lists.{All}
use virt_ue_sensing.Base.Text.{Text}

abbrev cons_first : ℕ → List Text → List Text
cons_first c [] = (c ∷ []) ∷ []
cons_first c (w ∷ ws) = (c ∷ w) ∷ ws

-- `s.split(c)` for one character, as `split_on c s`.
unfoldable pub split_on : ℕ → Text → List Text
split_on c [] = [] ∷ []
split_on c (d ∷ s) = let rest = split_on c s in if d == c then [] ∷ rest else cons_first d rest

-- `sep.join(ws)`
abbrev pub join_with : Text → List Text → Text
join_with sep [] = []
join_with sep (w ∷ []) = w
join_with sep (w ∷ v ∷ ws) = w ++ (sep ++ join_with sep (v ∷ ws))

-- `c in s` for one character.
abbrev pub has_char : ℕ → Text → Bool
has_char c [] = false
has_char c (d ∷ s) = if d == c then true else has_char c s

-- Python's white space.
abbrev pub is_space : ℕ → Bool
is_space c =
    (leb 9 c && leb c 13)
    || (leb 28 c && leb c 32)
    || (c == 133)
    || (c == 160)
    || (c == 5760)
    || (leb 8192 c && leb c 8202)
    || (c == 8232)
    || (c == 8233)
    || (c == 8239)
    || (c == 8287)
    || (c == 12288)

unfoldable lstrip : Text → Text
lstrip [] = []
lstrip (c ∷ s) = let rest = lstrip s in if is_space c then rest else c ∷ s

abbrev keep_unless_blank : ℕ → Text → Text
keep_unless_blank c [] = if is_space c then [] else c ∷ []
keep_unless_blank c (d ∷ s) = c ∷ d ∷ s

unfoldable rstrip : Text → Text
rstrip [] = []
rstrip (c ∷ s) = keep_unless_blank c (rstrip s)

-- `s.strip()`
unfoldable pub strip : Text → Text
unfolding lstrip rstrip
strip s = rstrip (lstrip s)

join_with-cons_first :
    (c d : ℕ) (w : Text) (ws : List Text)
    → join_with (c ∷ []) ((d ∷ w) ∷ ws) ≡ d ∷ join_with (c ∷ []) (w ∷ ws)
join_with-cons_first c d w [] = refl
join_with-cons_first c d w (v ∷ ws) = refl

pub join_with-two :
    (c : ℕ) (w v : Text) (ws : List Text)
    → join_with (c ∷ []) (w ∷ v ∷ ws) ≡ w ++ c ∷ join_with (c ∷ []) (v ∷ ws)
join_with-two c w v ws = refl

-- There is a piece, also of the empty text.
split_on-nonempty : (c : ℕ) (s : Text) → (w : Text) × (ws : List Text) × (split_on c s ≡ w ∷ ws)
unfolding split_on
split_on-nonempty c [] = ([], [], refl)
split_on-nonempty c (d ∷ s) = elim (Bool-cases (d == c)) [
  | inl here ↦ ([], split_on c s, ground arith)
  | inr on ↦ let (w, ws, e) = split_on-nonempty c s in (d ∷ w, ws, ground arith)
]

-- Splitting and joining by one character gives the text back.
pub join_with-split_on : (c : ℕ) (s : Text) → join_with (c ∷ []) (split_on c s) ≡ s
unfolding split_on
join_with-split_on c [] = refl
join_with-split_on c (d ∷ s) = elim (Bool-cases (d == c)) [
  | inl here ↦
      let (w, ws, e) = split_on-nonempty c s in
      ground (arith, e, join_with-split_on c s, ==_iff d c)
  | inr on ↦
      let (w, ws, e) = split_on-nonempty c s in
      ground (arith, e, join_with-split_on c s, join_with-cons_first c d w ws)
]

-- A text with the character in it has two pieces, the first without it.
pub split_on-first :
    (c : ℕ) (s : Text)
    → has_char c s ≡ true
    → (w : Text) × (v : Text) × (ws : List Text) × (split_on c s ≡ w ∷ v ∷ ws)
      × (has_char c w ≡ false)
unfolding split_on
split_on-first c [] h = absurd (ground arith)
split_on-first c (d ∷ s) h = elim (Bool-cases (d == c)) [
  | inl here ↦ let (w, ws, e) = split_on-nonempty c s in ([], w, ws, ground arith, refl)
  | inr on ↦
      let (w, v, ws, e, n) = split_on-first c s (ground arith) in
      (d ∷ w, v, ws, ground arith, ground arith)
]

cons_first-All :
    (c d : ℕ) (ws : List Text)
    → (d == c) ≡ false
    → All (λ w. has_char c w ≡ false) ws
    → All (λ w. has_char c w ≡ false) (cons_first d ws)
cons_first-All c d [] n h = (rw n refl, tt)
cons_first-All c d (w ∷ ws) n (f, h) = (rw n f, h)

-- No piece has the character.
pub split_on-All : (c : ℕ) (s : Text) → All (λ w. has_char c w ≡ false) (split_on c s)
unfolding split_on
split_on-All c [] = (refl, tt)
split_on-All c (d ∷ s) = elim (Bool-cases (d == c)) [
  | inl here ↦ rw here (refl, split_on-All c s)
  | inr on ↦ rw on (cons_first-All c d (split_on c s) on (split_on-All c s))
]

split_on-alone : (c : ℕ) (w : Text) → has_char c w ≡ false → split_on c w ≡ w ∷ []
unfolding split_on
split_on-alone c [] h = refl
split_on-alone c (d ∷ w) h = ground (arith, split_on-alone c w)

-- The text up to the first such character is a piece.
pub split_on-append :
    (c : ℕ) (w s : Text) → has_char c w ≡ false → split_on c (w ++ (c ∷ s)) ≡ w ∷ split_on c s
unfolding split_on
split_on-append c [] s h = ground (arith, ==_iff c c)
split_on-append c (d ∷ w) s h = ground (arith, split_on-append c w s)

-- Joining pieces without the character and splitting gives the pieces back.
pub split_on-join_with :
    (c : ℕ) (w : Text) (ws : List Text)
    → All (λ v. has_char c v ≡ false) (w ∷ ws)
    → split_on c (join_with (c ∷ []) (w ∷ ws)) ≡ w ∷ ws
split_on-join_with c w [] (h, _) = split_on-alone c w h
split_on-join_with c w (v ∷ ws) (h, more) =
    rw (split_on-append c w (join_with (c ∷ []) (v ∷ ws)) h, split_on-join_with c v ws more) refl
