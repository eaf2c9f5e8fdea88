-- ===== src/Base/Text.antt =====
-- Python's `str` as the list of its code points, with the operations that the program uses.
use Prim.Native.Nat.{ℕ}
use Prim.Native.Char.{code}
use Prim.Native.String.{String}
use mathlib.Core.Path.{◌≡◌, refl}
use mathlib.Core.Bool.{Bool, true, false}
use mathlib.Core.List.{List, [], ◌∷◌, ◌++◌}
use native.Mathlib.Omega.{arith}
use virt_ue_sensing.Base.Tests.{
  ◌==◌, ==_iff, if◌then◌else◌, Eq, list_beq, list_beq_sound, list_beq_refl,
}

abbrev pub Text : Type 0
Text = List ℕ

-- A literal of the source.
abbrev pub codes : String → Text
codes String.[] = []
codes (String.◌∷◌ c s) = code c ∷ codes s

unfoldable pub text_eq : Text → Text → Bool
text_eq = list_beq ◌==◌

pub text_eq_sound : (s t : Text) → text_eq s t ≡ true → s ≡ t
unfolding text_eq
text_eq_sound s t h = list_beq_sound ◌==◌ (λ a b e. (==_iff a b).0 e) s t h

pub text_eq_refl : (s : Text) → text_eq s s ≡ true
unfolding text_eq
text_eq_refl s = list_beq_refl ◌==◌ (λ a. (==_iff a a).1 refl) s

pub text_eq_complete : (s t : Text) → s ≡ t → text_eq s t ≡ true
text_eq_complete s t e = rw (← e) (text_eq_refl s)

instance abbrev pub text_Eq : Eq Text
text_Eq = record { beq = text_eq; beq_iff = λ s t. (text_eq_sound s t, text_eq_complete s t) }

-- `s.startswith(p)`, as `starts_with p s`.
unfoldable pub starts_with : Text → Text → Bool
starts_with [] s = true
starts_with (c ∷ p) [] = false
starts_with (c ∷ p) (d ∷ s) = if c == d then starts_with p s else false

pub starts_with-append : (p s : Text) → starts_with p (p ++ s) ≡ true
unfolding starts_with
starts_with-append [] s = refl
starts_with-append (c ∷ p) s = ground (arith, starts_with-append p s)

-- A text that starts with `p` is `p` and a rest.
pub starts_with_split : (p s : Text) → starts_with p s ≡ true → (r : Text) × (s ≡ p ++ r)
unfolding starts_with
starts_with_split [] s h = (s, refl)
starts_with_split (c ∷ p) [] h = absurd (ground arith)
starts_with_split (c ∷ p) (d ∷ s) h =
    let ih = starts_with_split p s (ground arith) in (ih.0, ground (arith, ih.1))

-- `s.endswith(c)` for one character.
unfoldable pub ends_with : ℕ → Text → Bool
ends_with c [] = false
ends_with c (d ∷ []) = d == c
ends_with c (d ∷ e ∷ s) = ends_with c (e ∷ s)

-- `os.path.join(a, b)` of the POSIX `os.path`.
unfoldable pub join_path : Text → Text → Text
unfolding starts_with ends_with
join_path a b =
    if starts_with (codes "/") b
    then b
    else if text_eq a []
    then b
    else if ends_with b'/' a
    then a ++ b
    else a ++ codes "/" ++ b
