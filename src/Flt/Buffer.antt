-- ===== src/Flt/Buffer.antt =====
-- Writes into a ctypes buffer.
use virt_ue_sensing.Base.{
  ℕ, zero, suc, ◌+◌, ◌≡◌, ◌≤◌, ◌++◌, refl, sym, ◌∙◌, ap, [], ◌∷◌, arith, length, length-append,
  drop,
}
use virt_ue_sensing.Base.Text.{Text}
use virt_ue_sensing.Flt.Layout.{Struct, offset_of, bytes_at}
use virt_ue_sensing.Flt.Layout.Packing.{bytes_at-append}

-- The bytes `v` in place of those at offset `p`.
abbrev pub overwrite : ℕ → Text → Text → Text
overwrite zero v b = v ++ drop (length v) b
overwrite (suc p) v [] = []
overwrite (suc p) v (x ∷ b) = x ∷ overwrite p v b

-- `info.contents.name = v`, the value as its bytes.
abbrev pub assign : Struct → Text → Text → Text → Text
assign s name v b = overwrite (offset_of s name) v b

length-drop : (n : ℕ) (b : Text) → n ≤ length b → length (drop n b) + n ≡ length b
length-drop zero b h = omega arith
length-drop (suc n) [] h = absurd (omega arith)
length-drop (suc n) (x ∷ b) h = omega (arith, length-drop n b)

pub length-overwrite :
    (p : ℕ) (v b : Text) → p + length v ≤ length b → length (overwrite p v b) ≡ length b
length-overwrite zero v b h =
    omega (arith, length-append v (drop (length v) b), length-drop (length v) b)
length-overwrite (suc p) v [] h = refl
length-overwrite (suc p) v (x ∷ b) h = omega (arith, length-overwrite p v b)

-- What was written is read back.
pub bytes_at-overwrite :
    (p : ℕ) (v b : Text) → p + length v ≤ length b → bytes_at p (length v) (overwrite p v b) ≡ v
bytes_at-overwrite zero v b h = bytes_at-append [] v (drop (length v) b)
bytes_at-overwrite (suc p) v [] h = absurd (omega arith)
bytes_at-overwrite (suc p) v (x ∷ b) h = bytes_at-overwrite p v b (omega arith)

drop_nil : (n : ℕ) → drop {A = ℕ} n [] ≡ []
drop_nil zero = refl
drop_nil (suc n) = refl

drop-append : (o : ℕ) (v b : Text) → length v ≤ o → drop o (v ++ drop (length v) b) ≡ drop o b
drop-append o [] b h = refl
drop-append zero (x ∷ v) b h = absurd (omega arith)
drop-append (suc o) (x ∷ v) [] h =
    ap (λ t. drop o (v ++ t)) (sym (drop_nil (length v)))
    ∙ (drop-append o v [] (omega arith) ∙ drop_nil o)
drop-append (suc o) (x ∷ v) (y ∷ b) h = drop-append o v b (omega arith)

-- What stands behind the write is as it was, and so is what stands before it.
pub drop-overwrite : (o p : ℕ) (v b : Text) → p + length v ≤ o → drop o (overwrite p v b) ≡ drop o b
drop-overwrite o zero v b h = drop-append o v b (omega arith)
drop-overwrite zero (suc p) v b h = absurd (omega arith)
drop-overwrite (suc o) (suc p) v [] h = refl
drop-overwrite (suc o) (suc p) v (x ∷ b) h = drop-overwrite o p v b (omega arith)

pub bytes_at-overwrite_before :
    (o k p : ℕ) (v b : Text) → o + k ≤ p → bytes_at o k (overwrite p v b) ≡ bytes_at o k b
bytes_at-overwrite_before zero zero p v b h = refl
bytes_at-overwrite_before zero (suc k) zero v b h = absurd (omega arith)
bytes_at-overwrite_before zero (suc k) (suc p) v [] h = refl
bytes_at-overwrite_before zero (suc k) (suc p) v (x ∷ b) h =
    ap (λ t. x ∷ t) (bytes_at-overwrite_before zero k p v b (omega arith))
bytes_at-overwrite_before (suc o) k zero v b h = absurd (omega arith)
bytes_at-overwrite_before (suc o) k (suc p) v [] h = refl
bytes_at-overwrite_before (suc o) k (suc p) v (x ∷ b) h =
    bytes_at-overwrite_before o k p v b (omega arith)
