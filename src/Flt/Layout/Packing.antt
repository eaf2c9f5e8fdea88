-- ===== src/Flt/Layout/Packing.antt =====
-- What a C program that writes the structure puts into memory, and that `field` reads it back.
use virt_ue_sensing.Base.{
  append_assoc, ℕ, zero, suc, ◌+◌, ◌-◌, ◌≡◌, ◌≤◌, ◌<◌, ◌++◌, refl, ap, List, [], ◌∷◌, arith, length,
  length-append, take, if◌then◌else◌, Bool-cases, inl, inr,
}
use native.Mathlib.Nat.{div-mul-le_self, lt-div-mul-add}
use virt_ue_sensing.Base.Text.{Text, text_eq}
use virt_ue_sensing.Flt.Layout.{Struct, align_up, end_of, bytes_at, field_from, field}

abbrev pub zeros : ℕ → Text
zeros zero = []
zeros (suc n) = 0 ∷ zeros n

-- The bytes from `o` on, with a value for each field and zeros between them.
unfoldable pub pack : ℕ → Struct → List Text → Text
pack o [] vs = []
pack o (f ∷ fs) [] = []
pack o (f ∷ fs) (v ∷ vs) =
    let p = align_up f.align o in zeros (p - o) ++ (v ++ pack (p + f.size) fs vs)

-- Each value has the size of its field, and alignments are not 0.
abbrev pub Sized : Struct → List Text → Type 0
Sized [] [] = Unit
Sized [] (v ∷ vs) = ⊥
Sized (f ∷ fs) [] = ⊥
Sized (f ∷ fs) (v ∷ vs) = (length v ≡ f.size) × (0 < f.align) × Sized fs vs

-- The value that goes with a name.
unfoldable pub value_of : Text → Struct → List Text → Text
unfolding text_eq
value_of name [] vs = []
value_of name (f ∷ fs) [] = []
value_of name (f ∷ fs) (v ∷ vs) =
    let rest = value_of name fs vs in if text_eq f.name name then v else rest

pub length-zeros : (n : ℕ) → length (zeros n) ≡ n
length-zeros zero = refl
length-zeros (suc n) = omega (arith, length-zeros n)

take-append : (v r : Text) → take (length v) (v ++ r) ≡ v
take-append [] r = refl
take-append (b ∷ v) r = ground (arith, take-append v r)

-- The bytes behind the first part.
pub bytes_at-append : (a v r : Text) → bytes_at (length a) (length v) (a ++ (v ++ r)) ≡ v
bytes_at-append [] v r = take-append v r
bytes_at-append (b ∷ a) v r = bytes_at-append a v r

pub align_up_bounds : (a o : ℕ) → 0 < a → (o ≤ align_up a o) × (align_up a o < o + a)
align_up_bounds a o h =
    omega (arith, div-mul-le_self (o + (a - 1)) a, lt-div-mul-add {a = o + (a - 1)} h)

-- The bytes before a field: what stood there, and zeros up to its place.
before_field : (o p : ℕ) (pre : Text) → length pre ≡ o → o ≤ p → length (pre ++ zeros (p - o)) ≡ p
before_field o p pre e h = omega (arith, e, length-append pre (zeros (p - o)), length-zeros (p - o))

regroup :
    (pre z v r tail : Text) → pre ++ ((z ++ (v ++ r)) ++ tail) ≡ (pre ++ z) ++ (v ++ (r ++ tail))
regroup pre z v r tail = simp (append_assoc)

bytes_at-eq :
    (o k : ℕ) (a v r : Text) → length a ≡ o → length v ≡ k → bytes_at o k (a ++ (v ++ r)) ≡ v
bytes_at-eq o k a v r e f = rw (← e, ← f) (bytes_at-append a v r)

-- Every field of a packed structure is read back, whatever stands before and behind it.
field_from-pack :
    (o : ℕ) (name pre tail : Text) (fs : Struct) (vs : List Text)
    → length pre ≡ o
    → Sized fs vs
    → field_from o name fs (pre ++ (pack o fs vs ++ tail)) ≡ value_of name fs vs
unfolding field_from pack value_of
field_from-pack o name pre tail [] [] e h = refl
field_from-pack o name pre tail [] (v ∷ vs) e h = elim h [ ]
field_from-pack o name pre tail (f ∷ fs) [] e h = elim h [ ]
field_from-pack o name pre tail (f ∷ fs) (v ∷ vs) e (sized, aligned, h) =
    let p = align_up f.align o in
    let gap = pre ++ zeros (p - o) in
    let rest = pack (p + f.size) fs vs in
    let at = before_field o p pre e (align_up_bounds f.align o aligned).0 in
    let behind : length (gap ++ v) ≡ p + f.size = omega (arith, length-append gap v, at, sized) in
    rw (regroup pre (zeros (p - o)) v rest tail) (elim (Bool-cases (text_eq f.name name)) [
      | inl here ↦ rw here (bytes_at-eq p f.size gap v (rest ++ tail) at sized)
      | inr on ↦
          rw (on, ← append_assoc gap v (rest ++ tail))
            (field_from-pack (p + f.size) name (gap ++ v) tail fs vs behind h)
    ])

-- `field` reads from a packed structure the value of each name, whatever stands behind it.
pub field-pack :
    (name tail : Text) (fs : Struct) (vs : List Text)
    → Sized fs vs
    → field fs name (pack 0 fs vs ++ tail) ≡ value_of name fs vs
field-pack name tail fs vs h = field_from-pack 0 name [] tail fs vs refl h

-- A packed structure ends where its last field does.
length-pack :
    (o : ℕ) (fs : Struct) (vs : List Text) → Sized fs vs → o + length (pack o fs vs) ≡ end_of o fs
unfolding pack end_of
length-pack o [] [] h = omega arith
length-pack o [] (v ∷ vs) h = elim h [ ]
length-pack o (f ∷ fs) [] h = elim h [ ]
length-pack o (f ∷ fs) (v ∷ vs) (sized, aligned, h) =
    let p = align_up f.align o in
    let rest = pack (p + f.size) fs vs in
    omega (
      arith,
      align_up_bounds f.align o aligned,
      length-append (zeros (p - o)) (v ++ rest),
      length-append v rest,
      length-zeros (p - o),
      sized,
      length-pack (p + f.size) fs vs h,
    )

pub length-pack_whole :
    (fs : Struct) (vs : List Text) → Sized fs vs → length (pack 0 fs vs) ≡ end_of 0 fs
length-pack_whole fs vs h = omega (arith, length-pack 0 fs vs h)

append_nil : (s : Text) → s ++ [] ≡ s
append_nil [] = refl
append_nil (b ∷ s) = ap (λ t. b ∷ t) (append_nil s)

-- The same of a structure with nothing behind it.
pub field-pack_whole :
    (name : Text) (fs : Struct) (vs : List Text)
    → Sized fs vs
    → field fs name (pack 0 fs vs) ≡ value_of name fs vs
field-pack_whole name fs vs h = rw (← append_nil (pack 0 fs vs)) (field-pack name [] fs vs h)
