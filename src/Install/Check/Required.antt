-- ===== src/Install/Check/Required.antt =====
-- What a target that validates can rely on.
use virt_ue_sensing.Base.{
  ◌≡◌, refl, Bool, true, false, some, List, [], ◌∷◌, ◌++◌, arith, All, Bool-cases, Option-cases,
  inl, inr,
}
use mathlib.Core.Path.{subst}
use virt_ue_sensing.Base.Text.{Text, codes, text_Eq, text_eq, text_eq_sound}
use virt_ue_sensing.Base.Dict.{Dict, get, put, contains, contains-eq-get, get-put}
use virt_ue_sensing.Base.Fallible.{◌>>=◌}
use virt_ue_sensing.Base.Exec.{Result, ok, then_result-ok}
use virt_ue_sensing.Install.{Item, text_item, dict_item, scalar_item, Found, Host, entry, iterate}
use virt_ue_sensing.Install.Check.{
  Problem, gather, unless, in_index, index_from, index_by_name, check_required, validate_target,
  no_sensor, no_kernel_module, check_os, missing_directories, directory_keys,
}

-- The entry that an item names.
pub record IsKnown (d : Dict Text Found) (item : Item) : Type 0 where
  pub name : Text
  pub is_text : item ≡ text_item name
  pub found : Found
  pub there : get name d ≡ some found

append-nil {ℓ} : {A : Type ℓ} (xs ys : List A) → xs ++ ys ≡ [] → (xs ≡ []) × (ys ≡ [])
append-nil [] ys e = (refl, e)
append-nil (x ∷ xs) ys e = absurd cc

-- Where the whole loop finds no problem, none of its rounds does.
pub gather-none {ℓ} :
    {A : Type ℓ} (f : A → Result (List Problem)) (xs : List A)
    → gather f xs ≡ ok []
    → All (λ x. f x ≡ ok []) xs
gather-none f [] e = tt
gather-none f (x ∷ xs) e =
    let (here, eh, e1) = then_result-ok (f x) _ [] e in
    let (more, em, e2) = then_result-ok (gather f xs) _ [] e1 in
    let n = append-nil here more (cc) in (cc, gather-none f xs cc)

unless-none : (b : Bool) (p : Problem) → ok (unless b p) ≡ ok [] → b ≡ true
unless-none true p e = refl
unless-none false p e = absurd cc

IsKnown-item :
    (problem : Item → Problem) (d : Dict Text Found) (item : Item)
    → (in_index d item >>= λ there. ok (unless there (problem item))) ≡ ok []
    → IsKnown d item
unfolding in_index
IsKnown-item problem d (text_item t) e = elim (Option-cases (get t d)) [
  | inl absent ↦
      absurd
        (ground (arith, contains-eq-get t d, unless-none (contains t d) (problem (text_item t)) e))
  | inr (x, there) ↦ record { name = t; is_text = refl; found = x; there = there }
]
IsKnown-item problem d (dict_item _) e = absurd cc
IsKnown-item problem d scalar_item e = absurd cc

pub All-map {ℓ κ η} :
    {A : Type ℓ} {P : A → Type κ} {Q : A → Type η} (f : (x : A) → P x → Q x) (xs : List A)
    → All P xs
    → All Q xs
All-map f [] h = tt
All-map f (x ∷ xs) (p, h) = (f x p, All-map f xs h)

check_required-IsKnown :
    (problem : Item → Problem) (d : Dict Text Found) (items : List Item)
    → check_required problem d items ≡ ok []
    → All (IsKnown d) items
check_required-IsKnown problem d items e =
    All-map (IsKnown-item problem d) items (gather-none _ items e)

-- A target that validates names only sensors and kernel modules that are there.
pub validate_target-IsKnown :
    (host : Host) (target : Found) (sensors kmods : List Found)
    → validate_target host target sensors kmods ≡ ok []
    → (required : List Item) × (modules : List Item) × ((entry (codes "sensors") target.doc
          >>= iterate)
        ≡ ok required)
      × ((entry (codes "kernel_modules") target.doc >>= iterate) ≡ ok modules)
      × All (IsKnown (index_by_name sensors)) required
      × All (IsKnown (index_by_name kmods)) modules
unfolding validate_target
validate_target-IsKnown host target sensors kmods e =
    let (required, er, e1) =
      then_result-ok (entry (codes "sensors") target.doc >>= iterate) _ [] e in
    let (no_sensors, es, e2) =
      then_result-ok (check_required no_sensor (index_by_name sensors) required) _ [] e1 in
    let (modules, em, e3) =
      then_result-ok (entry (codes "kernel_modules") target.doc >>= iterate) _ [] e2 in
    let (no_kmods, ek, e4) =
      then_result-ok (check_required no_kernel_module (index_by_name kmods) modules) _ [] e3 in
    let absent = missing_directories host directory_keys target.doc in
    let n1 = append-nil (check_os target.doc) (no_sensors ++ (no_kmods ++ absent)) cc in
    let n2 = append-nil no_sensors (no_kmods ++ absent) n1.1 in
    let n3 = append-nil no_kmods absent n2.1 in
    (
      required,
      modules,
      er,
      em,
      check_required-IsKnown no_sensor (index_by_name sensors) required cc,
      check_required-IsKnown no_kernel_module (index_by_name kmods) modules cc,
    )

-- What holds of every entry under its name holds of what the index gives.
module _ {κ} (P : Text → Found → Type κ) where
  move : (y z : Found) (j : Text) → y.name ≡ j → y ≡ z → P y.name y → P j z
  move y z j e f p = subst (λ k. P k z) e (subst (λ x. P y.name x) f p)

  index_from-holds :
      (xs : List Found) (d : Dict Text Found)
      → ((k : Text) (x : Found) → get k d ≡ some x → P k x)
      → All (λ x. P x.name x) xs
      → (k : Text) (x : Found) → get k (index_from d xs) ≡ some x
      → P k x
  unfolding index_from get
  index_from-holds [] d h all k x e = h k x e
  index_from-holds (y ∷ ys) d h (here, all) k x e =
      index_from-holds ys (put y.name y d)
        (λ j z f. elim (Bool-cases (text_eq y.name j)) [
          | inl same ↦
              move y z j (text_eq_sound y.name j same) (ground (arith, get-put y.name j y d)) here
          | inr differ ↦ h j z (ground (arith, get-put y.name j y d))
        ])
        all k x e

  pub index_by_name-holds :
      (xs : List Found)
      → All (λ x. P x.name x) xs
      → (k : Text) (x : Found) → get k (index_by_name xs) ≡ some x
      → P k x
  unfolding index_by_name get
  index_by_name-holds xs all k x e = index_from-holds xs [] (λ j z f. absurd (cc)) all k x e
