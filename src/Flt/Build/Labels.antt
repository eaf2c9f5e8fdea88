-- ===== src/Flt/Build/Labels.antt =====
-- What a decoded message carries, and what goes wrong with one (`_packet_decode_header`).
use virt_ue_sensing.Base.{
  ℕ, ap, ◌++◌, Bool, true, false, if◌then◌else◌, ◌≡◌, Bool, Option, none, some, [], ◌∷◌, refl,
  if◌then◌else◌, arith,
}
use virt_ue_sensing.Base.Text.{Text, codes, text_eq, text_Eq}
use virt_ue_sensing.Base.Dict.{get}
use virt_ue_sensing.Base.Exec.{Exc, Result, ok, err, then_result, or_raise, value_error}
use virt_ue_sensing.Flt.Enums.{sensor_type_names, name_of}
use virt_ue_sensing.Flt.Decode.{Tuple, Value, text, origin}
use virt_ue_sensing.Flt.Build.{sensor_type_of, built}

-- Nothing but a `ValueError` is raised.
pub record Refuses {ℓ} {A : Type ℓ} (r : Result A) : Type ℓ where
  pub refused : (x : Exc) → r ≡ err x → x ≡ value_error

-- The tuple carries the name as its sensor type, or it is a `ValueError`.
pub record Labelled (name : Text) (r : Result Tuple) : Type 0 where
  pub label : (m : Tuple) → r ≡ ok m → get (codes "sensor_type") m ≡ some (text name)
  pub refused : (x : Exc) → r ≡ err x → x ≡ value_error

pub Refuses-ok {ℓ} : {A : Type ℓ} (a : A) → Refuses (ok a)
Refuses-ok a = record { refused = λ x e. cc }

pub Refuses-then {ℓ κ} :
    {A : Type ℓ} {B : Type κ} (r : Result A) (f : A → Result B)
    → Refuses r
    → ((a : A) → Refuses (f a))
    → Refuses (then_result r f)
Refuses-then (ok a) f h k = k a
Refuses-then (err x) f h k = record { refused = λ y e. cc (h.refused x refl) }

pub Labelled-then {ℓ} :
    {A : Type ℓ} (name : Text) (r : Result A) (f : A → Result Tuple)
    → Refuses r
    → ((a : A) → Labelled name (f a))
    → Labelled name (then_result r f)
Labelled-then name (ok a) f h k = k a
Labelled-then name (err x) f h k = record {
  label = λ m e. cc;
  refused = λ y e. cc (h.refused x refl);
}

pub Refuses-or_raise {ℓ} : {A : Type ℓ} (o : Option A) → Refuses (or_raise value_error o)
Refuses-or_raise none = record { refused = λ x e. cc }
Refuses-or_raise (some a) = Refuses-ok a

pub Refuses-guard {ℓ} :
    {A : Type ℓ} (b : Bool) (r : Result A)
    → Refuses r
    → Refuses (if b then err value_error else r) × Refuses (if b then r else err value_error)
Refuses-guard true r h = (Refuses-or_raise none, h)
Refuses-guard false r h = (h, Refuses-or_raise none)

get-append : (k : Text) (v : Value) (m n : Tuple) → get k m ≡ some v → get k (m ++ n) ≡ some v
unfolding get
get-append k v [] n h = cc
get-append k v ((j, w) ∷ m) n h = ground (arith, get-append k v m n)

ok-inj {ℓ} : {A : Type ℓ} (a b : A) → ok a ≡ ok b → a ≡ b
ok-inj a b e = cc

pub Labelled-append :
    (name : Text) (m n : Tuple)
    → get (codes "sensor_type") m ≡ some (text name)
    → Labelled name (ok (m ++ n))
Labelled-append name m n h = record {
  label = λ t e. rw (← ok-inj (m ++ n) t e) (get-append (codes "sensor_type") (text name) m n h);
  refused = λ x e. cc;
}

pub Labelled-origin :
    (name packet : Text) (f : Tuple → Result Tuple)
    → name_of sensor_type_names (sensor_type_of packet) ≡ ok name
    → ((head : Tuple) → get (codes "sensor_type") head ≡ some (text name) → Labelled name (f head))
    → Labelled name (then_result (origin packet) f)
unfolding origin get text_eq
Labelled-origin name packet f h k = rw h (k _ refl)

-- What is made of a message with sensor type `t`.
pub record Outcome (name : Text) (t : ℕ) (r : Result (Option Tuple)) : Type 0 where
  pub label : (m : Tuple) → r ≡ ok (some m) → get (codes "sensor_type") m ≡ some (text name)
  pub unsupported : r ≡ ok none → t ≡ 0
  pub refused : (x : Exc) → r ≡ err x → x ≡ value_error

pub Outcome-built :
    (name : Text) (t : ℕ) (r : Result Tuple) → Labelled name r → Outcome name t (built r)
Outcome-built name t (ok m) h = record {
  label = λ n e. h.label n (let i : m ≡ n = cc in ap ok i);
  unsupported = λ e. cc;
  refused = λ x e. cc;
}
Outcome-built name t (err y) h = record {
  label = λ n e. cc;
  unsupported = λ e. cc;
  refused = λ x e. h.refused x (let i : y ≡ x = cc in ap err i);
}

pub Outcome-if :
    (name : Text) (t : ℕ) (b : Bool) (x y : Result (Option Tuple))
    → Outcome name t x
    → (b ≡ false → Outcome name t y)
    → Outcome name t (if b then x else y)
Outcome-if name t true x y p q = p
Outcome-if name t false x y p q = q refl

pub Outcome-none : (name : Text) (t : ℕ) → t ≡ 0 → Outcome name t (ok none)
Outcome-none name t e = record { label = λ m i. cc; unsupported = λ i. e; refused = λ x i. cc }
