-- ===== src/Install/Run/Validated.antt =====
-- What the main program installs.
use virt_ue_sensing.Base.{
  ℕ, ◌≡◌, refl, true, Option, some, none, List, [], ◌∷◌, arith, All, ◌⊎◌, inl, inr, Bool-cases,
}
use mathlib.Core.Path.{subst}
use virt_ue_sensing.Base.Text.{Text, codes, text_Eq}
use virt_ue_sensing.Base.Dict.{get}
use virt_ue_sensing.Base.Members.{mem}
use virt_ue_sensing.Base.Exec.{Result, ok, err, then_result, then_result-ok, Result-cases, Exec}
use virt_ue_sensing.Install.{Item, Doc, Found, Fs}
use virt_ue_sensing.Install.Find.{find_sensors, find_kmods, find_targets}
use virt_ue_sensing.Install.Check.{
  Problem, index_by_name, validate_kmod, validate_sensor, validate_target,
}
use virt_ue_sensing.Install.Check.Required.{
  IsKnown, All-map, index_by_name-holds, validate_target-IsKnown,
}
use virt_ue_sensing.Install.Place.{items_of}
use virt_ue_sensing.Install.Scripts.{named}
use virt_ue_sensing.Install.Run.{
  Setting, Included, include, included, if_some, included_sensors, included_kmods, included_targets,
  validate_all, main, shown_version, shown_name, sensor_dir, kernel_dir, targets_dir,
}

module _ (shown : Found → Result (Unit {0})) (skip : List Text)
    (validate : Found → Result (List Problem)) where
  included-valid :
      (x : Found) (errors : List Problem) (rest : Result (Option (List Found))) (ys : List Found)
      → validate x ≡ ok errors
      → ((zs : List Found) → rest ≡ ok (some zs) → All (λ y. validate y ≡ ok []) zs)
      → included x errors rest ≡ ok (some ys)
      → All (λ y. validate y ≡ ok []) ys
  included-valid x [] (ok (some zs)) ys v h e =
      subst (All (λ y. validate y ≡ ok [])) {x = x ∷ zs} (cc) (v, h zs refl)
  included-valid x [] (ok none) ys v h e = absurd cc
  included-valid x [] (err _) ys v h e = absurd cc
  included-valid x (_ ∷ _) rest ys v h e = absurd cc

  include-valid :
      (xs ys : List Found)
      → include shown skip validate xs ≡ ok (some ys)
      → All (λ y. validate y ≡ ok []) ys
  unfolding include
  include-valid [] ys e = subst (All (λ y. validate y ≡ ok [])) {x = []} (cc) tt
  include-valid (x ∷ xs) ys e =
      let (_, _, e1) = then_result-ok (shown x) _ (some ys) e in
      elim (Bool-cases (mem x.name skip)) [
        | inl skipped ↦ include-valid xs ys (ground arith)
        | inr taken ↦
            let e2 : then_result (validate x)
                  (λ errors. included x errors (include shown skip validate xs))
                ≡ ok (some ys) =
              ground arith in
            let (errors, v, e3) = then_result-ok (validate x) _ (some ys) e2 in
            included-valid x errors (include shown skip validate xs) ys v (include-valid xs) e3
      ]

  loop-valid :
      (r : Result (List Found)) (ys : List Found)
      → then_result r (include shown skip validate) ≡ ok (some ys)
      → All (λ y. validate y ≡ ok []) ys
  loop-valid r ys e =
      let (xs, _, i) = then_result-ok r (include shown skip validate) (some ys) e in
      include-valid xs ys i

if_some-some {ℓ κ} :
    {A : Type ℓ} {B : Type κ} (r : Result (Option A)) (f : A → Result (Option B)) (b : B)
    → if_some r f ≡ ok (some b)
    → (a : A) × (r ≡ ok (some a)) × (f a ≡ ok (some b))
if_some-some (ok (some a)) f b e = (a, refl, e)
if_some-some (ok none) f b e = absurd cc
if_some-some (err _) f b e = absurd cc

module _ {ℓ} {S : Type ℓ} (fs : Fs S) (open_port : ℕ → Exec S (Unit {0}))
    (set_list : List Text → List Text) (set_trace : Result (Unit {0}))
    (load : Text → S → Result Doc) (setting : Setting) (s : S) where
  abbrev ValidSensor : Found → Type 0
  ValidSensor sensor =
      validate_sensor fs.join (λ p. fs.exists p s) (λ p. fs.isfile p s) set_trace setting.host
        sensor
      ≡ ok []

  abbrev ValidKmod : Found → Type 0
  ValidKmod kmod = validate_kmod fs.join (λ p. fs.exists p s) (λ p. fs.isfile p s) kmod ≡ ok []

  -- The definition that an item names, which has been validated.
  pub record Names (V : Found → Type 0) (index : List Found) (item : Item) : Type 0 where
    pub definition : Found
    pub there : named (index_by_name index) item ≡ ok definition
    pub valid : V definition

  pub record Installable (x : Included) (target : Found) : Type 0 where
    pub required : List Item
    pub modules : List Item
    pub sensors : items_of (codes "sensors") target.doc ≡ ok required
    pub kmods : items_of (codes "kernel_modules") target.doc ≡ ok modules
    pub sensors_there : All (Names ValidSensor x.sensors) required
    pub kmods_there : All (Names ValidKmod x.kmods) modules

  names :
      (V : Found → Type 0) (xs : List Found)
      → All V xs
      → (item : Item) → IsKnown (index_by_name xs) item
      → Names V xs item
  unfolding get named
  names V xs all item k = record {
    definition = k.found;
    there = rw k.is_text (rw k.there refl);
    valid = index_by_name-holds (λ _ x. V x) xs all k.name k.found k.there;
  }

  installable :
      (x : Included) (target : Found)
      → All ValidSensor x.sensors
      → All ValidKmod x.kmods
      → validate_target setting.host target x.sensors x.kmods ≡ ok []
      → Installable x target
  installable x target vs vk e =
      let (required, modules, er, em, hr, hm) =
        validate_target-IsKnown setting.host target x.sensors x.kmods e in
      record {
        required = required;
        modules = modules;
        sensors = er;
        kmods = em;
        sensors_there = All-map (names ValidSensor x.sensors vs) required hr;
        kmods_there = All-map (names ValidKmod x.kmods vk) modules hm;
      }

  pub validate_all-Installable :
      (x : Included)
      → validate_all fs open_port set_list set_trace load setting s ≡ ok (some x)
      → All (Installable x) x.targets
  unfolding validate_all included_sensors included_kmods included_targets
  validate_all-Installable x e =
      let (sensors, es, e1) =
        if_some-some (included_sensors fs open_port set_list set_trace load setting s) _ x e in
      let (kmods, ek, e2) =
        if_some-some (included_kmods fs open_port set_list set_trace load setting s) _ x e1 in
      let (targets, et, e3) =
        if_some-some (included_targets fs open_port set_list set_trace load setting sensors kmods s)
          _ x e2 in
      let vs =
        loop-valid shown_version setting.skip_sensors
          (validate_sensor fs.join (λ p. fs.exists p s) (λ p. fs.isfile p s) set_trace setting.host)
          (find_sensors (λ p. load p s) fs.join (fs.walk (fs.abspath sensor_dir) s)) sensors es in
      let vk =
        loop-valid shown_version setting.skip_modules
          (validate_kmod fs.join (λ p. fs.exists p s) (λ p. fs.isfile p s))
          (find_kmods (λ p. load p s) fs.join (fs.walk kernel_dir s)) kmods ek in
      let vt =
        loop-valid shown_name setting.skip_targets
          (λ target. validate_target setting.host target sensors kmods)
          (find_targets (λ p. load p s) fs.join (fs.walk targets_dir s)) targets et in
      let y : Included = record { sensors = sensors; kmods = kmods; targets = targets } in
      subst (λ z. All (Installable z) z.targets) {x = y} (cc)
        (All-map (λ t. installable y t vs vk) targets vt)

  -- The main program leaves the disk and the ports as they are, or it installs and every sensor and
  -- module that a target names is there and has been validated.
  pub main-Installable :
      (base : ℕ)
      → let run =
          main fs open_port set_list set_trace load setting
            (record { disk = s; base_port_no = base }) in
        (run.1 ≡ record { disk = s; base_port_no = base })
        ⊎ ((x : Included) × (validate_all fs open_port set_list set_trace load setting s
              ≡ ok (some x))
            × (setting.install ≡ true)
            × All (Installable x) x.targets)
  unfolding main
  main-Installable base =
      elim (Result-cases (validate_all fs open_port set_list set_trace load setting s)) [
        | inl (none, e) ↦ inl (rw e refl)
        | inl (some x, e) ↦ elim (Bool-cases setting.install) [
          | inl wanted ↦ inr (x, e, wanted, validate_all-Installable x e)
          | inr only ↦ inl (rw (e, only) refl)
        ]
        | inr (x, e) ↦ inl (rw e refl)
      ]
