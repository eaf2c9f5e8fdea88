-- ===== src/Base/Members.antt =====
-- Membership by Python's `==`, and lists without repetition.
use mathlib.Core.Path.{◌≡◌, refl, subst}
use mathlib.Core.Logic.{inl, inr}
use mathlib.Core.Bool.{Bool, true, false, ◌&&◌}
use mathlib.Core.List.{List, [], ◌∷◌}
use native.Mathlib.Omega.{arith}
use virt_ue_sensing.Base.Tests.{Eq, if◌then◌else◌, Bool-cases}
use virt_ue_sensing.Base.Lists.{keep_if, All}
use virt_ue_sensing.Base.Dict.{Dict, contains, keys, put, remove, contains-eq-get, get-put}

module _ {ℓ} {A : Type ℓ} ⦃e : Eq A⦄ where
  -- `a in xs`
  abbrev pub mem : A → List A → Bool
  mem a [] = false
  mem a (x ∷ xs) = if e.beq x a then true else mem a xs

  abbrev pub Distinct : List A → Type 0
  Distinct [] = Unit
  Distinct (x ∷ xs) = (mem x xs ≡ false) × Distinct xs

  pub mem-keep_if : (p : A → Bool) (a : A) (xs : List A) → mem a (keep_if p xs) ≡ (mem a xs && p a)
  mem-keep_if p a [] = refl
  mem-keep_if p a (x ∷ xs) = ground (arith, mem-keep_if p a xs, e.beq_iff x a)

  pub Distinct-keep_if : (p : A → Bool) (xs : List A) → Distinct xs → Distinct (keep_if p xs)
  Distinct-keep_if p [] d = tt
  Distinct-keep_if p (x ∷ xs) d = ground (arith, Distinct-keep_if p xs d.1, mem-keep_if p x xs)

module _ {ℓ κ} {A : Type ℓ} ⦃e : Eq A⦄ (P : A → Type κ) where
  -- A predicate of the members, read off the list and put together again.
  pub All-mem : (a : A) (xs : List A) → All P xs → mem a xs ≡ true → P a
  All-mem a [] h m = absurd (ground arith)
  All-mem a (x ∷ xs) h m = elim (Bool-cases (e.beq x a)) [
    | inl same ↦ subst P ((e.beq_iff x a).0 same) h.0
    | inr differ ↦ All-mem a xs h.1 (ground arith)
  ]

  pub All-of_mem : (xs : List A) → ((a : A) → mem a xs ≡ true → P a) → All P xs
  All-of_mem [] f = tt
  All-of_mem (x ∷ xs) f = (
    f x (ground (arith, e.beq_iff x x)),
    All-of_mem xs (λ a m. f a (ground (arith, e.beq_iff x a))),
  )

module _ {ℓ κ} {K : Type ℓ} {V : Type κ} ⦃e : Eq K⦄ where
  pub mem-keys : (k : K) (d : Dict K V) → mem k (keys d) ≡ contains k d
  unfolding contains
  mem-keys k [] = refl
  mem-keys k ((j, v) ∷ d) = ground (arith, mem-keys k d)

  pub contains-put :
      (k j : K) (v : V) (d : Dict K V)
      → contains j (put k v d) ≡ (if e.beq k j then true else contains j d)
  contains-put k j v d =
      ground (arith, contains-eq-get j (put k v d), contains-eq-get j d, get-put k j v d)

  -- Writing a key keeps the keys distinct.
  pub Distinct-put :
      (k : K) (v : V) (d : Dict K V) → Distinct (keys d) → Distinct (keys (put k v d))
  unfolding put
  Distinct-put k v [] h = (refl, tt)
  Distinct-put k v ((j, w) ∷ d) h = ground (
    arith,
    Distinct-put k v d h.1,
    mem-keys j (put k v d),
    mem-keys j d,
    contains-put k j v d,
    e.beq_iff j k,
    e.beq_iff k j,
  )

  mem-keys-remove :
      (k j : K) (d : Dict K V) → mem j (keys d) ≡ false → mem j (keys (remove k d)) ≡ false
  unfolding remove
  mem-keys-remove k j [] h = refl
  mem-keys-remove k j ((i, w) ∷ d) h = ground (arith, mem-keys-remove k j d)

  -- Deleting a key keeps the keys distinct.
  pub Distinct-remove : (k : K) (d : Dict K V) → Distinct (keys d) → Distinct (keys (remove k d))
  unfolding remove
  Distinct-remove k [] h = tt
  Distinct-remove k ((j, w) ∷ d) h =
      ground (arith, Distinct-remove k d h.1, mem-keys-remove k j d h.0)
