-- ===== src/Base/Exec.antt =====
-- Python exceptions, and code that may raise: what was written before a raise stays written, so
-- the state comes back beside the exception too.
use mathlib.Core.Path.{◌≡◌, refl, ap}
use mathlib.Core.Logic.{◌⊎◌, inl, inr}
use mathlib.Core.Option.{Option, none, some}

pub data Exc : Type 0 where
  attribute_error key_error name_error type_error value_error runtime_error : Exc
  assertion_error connection_error task_error struct_error : Exc
  unicode_error json_decode_error index_error os_error : Exc

pub data Result {ℓ} (A : Type ℓ) : Type ℓ where
  ok : A → Result A
  err : Exc → Result A

pub Result-cases {ℓ} :
    {A : Type ℓ} (r : Result A) → ((a : A) × (r ≡ ok a)) ⊎ ((x : Exc) × (r ≡ err x))
Result-cases (ok a) = inl (a, refl)
Result-cases (err x) = inr (x, refl)

abbrev pub then_result {ℓ κ} : {A : Type ℓ} {B : Type κ} → Result A → (A → Result B) → Result B
then_result (ok a) f = f a
then_result (err e) f = err e

-- A chain that succeeds has a first step that does.
pub then_result-ok {ℓ κ} :
    {A : Type ℓ} {B : Type κ} (r : Result A) (f : A → Result B) (b : B)
    → then_result r f ≡ ok b
    → (a : A) × (r ≡ ok a) × (f a ≡ ok b)
then_result-ok (ok a) f b e = (a, refl, e)
then_result-ok (err x) f b e = absurd cc

abbrev pub or_raise {ℓ} : {A : Type ℓ} → Exc → Option A → Result A
or_raise e none = err e
or_raise e (some a) = ok a

abbrev pub Exec {ℓ κ} : Type ℓ → Type κ → Type (ℓ ⊔ κ)
Exec S A = S → Result A × S

module _ {ℓ κ} {S : Type ℓ} {A : Type κ} where
  abbrev pub pure : A → Exec S A
  pure a s = (ok a, s)

  abbrev pub raise : Exc → Exec S A
  raise e s = (err e, s)

  abbrev pub lift : Result A → Exec S A
  lift r s = (r, s)

  abbrev pub gets : (S → A) → Exec S A
  gets f s = (ok (f s), s)

abbrev pub modify {ℓ} : {S : Type ℓ} → (S → S) → Exec S (Unit {0})
modify f s = (ok tt, f s)

infixl 5 ◌>>=◌ ◌>>◌
abbrev pub ◌>>=◌ {ℓ κ η} :
    {S : Type ℓ} {A : Type κ} {B : Type η} → Exec S A → (A → Exec S B) → Exec S B
◌>>=◌ m f s = let (r, s') = m s in elim r [ ok a ↦ f a s' | err x ↦ (err x, s') ]

abbrev pub ◌>>◌ {ℓ κ η} : {S : Type ℓ} {A : Type κ} {B : Type η} → Exec S A → Exec S B → Exec S B
m >> k = m >>= λ _. k

-- After a step that succeeds the chain goes on from the state that the step leaves.
pub >>-ok {ℓ κ η} :
    {S : Type ℓ} {A : Type κ} {B : Type η} (m : Exec S A) (k : Exec S B) (s t : S) (a : A)
    → m s ≡ (ok a, t)
    → (m >> k) s ≡ k t
>>-ok m k s t a e = ap (λ p. elim p.0 [ ok b ↦ k p.1 | err x ↦ (err x, p.1) ]) e

pub >>=-ok {ℓ κ η} :
    {S : Type ℓ} {A : Type κ} {B : Type η} (m : Exec S A) (f : A → Exec S B) (s t : S) (a : A)
    → m s ≡ (ok a, t)
    → (m >>= f) s ≡ f a t
>>=-ok m f s t a e = ap (λ p. elim p.0 [ ok b ↦ f b p.1 | err x ↦ (err x, p.1) ]) e

bind_ok_of {ℓ κ η} :
    {S : Type ℓ} {A : Type κ} {B : Type η} (r : Result A × S) (f : A → Exec S B) (t : S) (b : B)
    → elim r.0 [ ok a ↦ f a r.1 | err x ↦ (err x, r.1) ] ≡ (ok b, t)
    → (a : A) × (u : S) × (r ≡ (ok a, u)) × (f a u ≡ (ok b, t))
bind_ok_of (ok a, u) f t b e = (a, u, refl, e)
bind_ok_of (err x, u) f t b e = absurd cc

-- A chain that succeeds has a first step that does, and goes on from the state that it leaves.
pub bind_ok {ℓ κ η} :
    {S : Type ℓ} {A : Type κ} {B : Type η} (m : Exec S A) (f : A → Exec S B) (s t : S) (b : B)
    → (m >>= f) s ≡ (ok b, t)
    → (a : A) × (u : S) × (m s ≡ (ok a, u)) × (f a u ≡ (ok b, t))
bind_ok m f s t b e = bind_ok_of (m s) f t b e
