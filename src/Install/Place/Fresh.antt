-- ===== src/Install/Place/Fresh.antt =====
-- The directories of a target when `prep_target` is done.
use virt_ue_sensing.Base.{
  arith, Bool-cases, ◌≡◌, refl, ap, ◌∙◌, inl, inr, Bool-cases, Bool, true, false, List, [], ◌∷◌,
  All, if◌then◌else◌,
}
use mathlib.Core.Path.{subst}
use virt_ue_sensing.Base.Text.{Text}
use virt_ue_sensing.Base.Exec.{Result, ok, pure, then_result, lift, bind_ok, >>-ok, >>=-ok}
use virt_ue_sensing.Install.{Found, Fs, each}
use virt_ue_sensing.Install.Place.{path_entry, renew, prepare, prepared_keys, prep_target}

-- What `rmtree` and `makedirs` do to the directories, where `apart p q` says that neither of two
-- paths lies in the other, and `Empty p s` that `p` is a directory with nothing in it. What is there
-- can be removed, and `makedirs` makes the directory of a path only where nothing is.
pub record Directories {ℓ} {S : Type ℓ} (fs : Fs S) (apart : Text → Text → Bool)
    (Empty : Text → S → Type 0) : Type ℓ where
  pub rmtree_ok :
      (p : Text) (s : S)
      → fs.exists p s ≡ true
      → (t : S) × (fs.rmtree p s ≡ (ok tt, t)) × (fs.exists p t ≡ false)
  pub makedirs_ok :
      (p : Text) (s : S) → fs.exists p s ≡ false → (t : S) × (fs.makedirs p s ≡ (ok tt, t))
  pub makedirs_new : (p : Text) (s t : S) → fs.makedirs p s ≡ (ok tt, t) → Empty p t
  pub makedirs_keeps :
      (p q : Text) (s t : S)
      → fs.makedirs q s ≡ (ok tt, t)
      → apart p q ≡ true
      → Empty p s
      → Empty p t
  pub rmtree_keeps :
      (p q : Text) (s t : S) → fs.rmtree q s ≡ (ok tt, t) → apart p q ≡ true → Empty p s → Empty p t

-- `os.path.join(target["root"], target["target"][k])`
abbrev pub path_of : (Text → Text → Text) → Found → Text → Result Text
path_of join target k = then_result (path_entry k target.doc) λ dir. ok (join target.root dir)

-- No two of the entries name paths of which one lies in the other.
abbrev pub Apart : (Text → Text → Text) → (Text → Text → Bool) → Found → List Text → Type 0
Apart join apart target [] = Unit
Apart join apart target (k ∷ ks) =
    All
      (λ j.
        (p q : Text)
        → path_of join target k ≡ ok p
        → path_of join target j ≡ ok q
        → apart p q ≡ true)
      ks
    × Apart join apart target ks

-- The entry has a text.
abbrev pub Named : Found → Text → Type 0
Named target k = (dir : Text) × (path_entry k target.doc ≡ ok dir)

module _ {ℓ} {S : Type ℓ} (fs : Fs S) (apart : Text → Text → Bool) (Empty : Text → S → Type 0)
    (laws : Directories fs apart Empty) where
  -- The entry names an empty directory.
  pub record Fresh (target : Found) (s : S) (k : Text) : Type 0 where
    pub path : Text
    pub named : path_of fs.join target k ≡ ok path
    pub empty : Empty path s

  renew-Empty : (p : Text) (s t : S) → renew fs p s ≡ (ok tt, t) → Empty p t
  unfolding renew
  renew-Empty p s t e =
      let (_, u, _, m) =
        bind_ok (if fs.exists p s then fs.rmtree p else pure tt) (λ _. fs.makedirs p) s t tt e in
      laws.makedirs_new p u t m

  removed-keeps :
      (p q : Text) (s t : S) (there : Bool)
      → (if there then fs.rmtree q else pure tt) s ≡ (ok tt, t)
      → apart p q ≡ true
      → Empty p s
      → Empty p t
  removed-keeps p q s t true e a h = laws.rmtree_keeps p q s t e a h
  removed-keeps p q s t false e a h = subst (Empty p) (cc) h

  renew-keeps :
      (p q : Text) (s t : S) → renew fs q s ≡ (ok tt, t) → apart p q ≡ true → Empty p s → Empty p t
  unfolding renew
  renew-keeps p q s t e a h =
      let (_, u, r, m) =
        bind_ok (if fs.exists q s then fs.rmtree q else pure tt) (λ _. fs.makedirs q) s t tt e in
      laws.makedirs_keeps p q u t m a (removed-keeps p q s u (fs.exists q s) r a h)

  prepare-Fresh :
      (target : Found) (k : Text) (s t : S) → prepare fs target k s ≡ (ok tt, t) → Fresh target t k
  unfolding prepare
  prepare-Fresh target k s t e =
      let (dir, u, r, m) =
        bind_ok (lift (path_entry k target.doc)) (λ dir. renew fs (fs.join target.root dir)) s t tt
          e in
      let f : path_entry k target.doc ≡ ok dir = ap (λ x. x.0) r in
      record {
        path = fs.join target.root dir;
        named = rw f refl;
        empty = renew-Empty (fs.join target.root dir) u t m;
      }

  prepare-keeps :
      (target : Found) (j k : Text) (s t : S)
      → prepare fs target k s ≡ (ok tt, t)
      → ((p q : Text)
          → path_of fs.join target j ≡ ok p
          → path_of fs.join target k ≡ ok q
          → apart p q ≡ true)
      → Fresh target s j
      → Fresh target t j
  unfolding prepare
  prepare-keeps target j k s t e a h =
      let (dir, u, r, m) =
        bind_ok (lift (path_entry k target.doc)) (λ dir. renew fs (fs.join target.root dir)) s t tt
          e in
      let f : path_entry k target.doc ≡ ok dir = ap (λ x. x.0) r in
      let same : s ≡ u = ap (λ x. x.1) r in
      record {
        path = h.path;
        named = h.named;
        empty =
            renew-keeps h.path (fs.join target.root dir) u t m
              (a h.path (fs.join target.root dir) h.named (rw f refl))
              (subst (Empty h.path) same h.empty);
      }

  each-keeps :
      (target : Found) (j : Text) (ks : List Text) (s t : S)
      → each (prepare fs target) ks s ≡ (ok tt, t)
      → All
          (λ k.
            (p q : Text)
            → path_of fs.join target j ≡ ok p
            → path_of fs.join target k ≡ ok q
            → apart p q ≡ true)
          ks
      → Fresh target s j
      → Fresh target t j
  each-keeps target j [] s t e a h = subst (λ u. Fresh target u j) (cc) h
  each-keeps target j (k ∷ ks) s t e (a, more) h =
      let (_, u, r, m) =
        bind_ok (prepare fs target k) (λ _. each (prepare fs target) ks) s t tt e in
      each-keeps target j ks u t m more (prepare-keeps target j k s u r a h)

  each-Fresh :
      (target : Found) (ks : List Text) (s t : S)
      → each (prepare fs target) ks s ≡ (ok tt, t)
      → Apart fs.join apart target ks
      → All (Fresh target t) ks
  each-Fresh target [] s t e a = tt
  each-Fresh target (k ∷ ks) s t e (a, more) =
      let (_, u, r, m) =
        bind_ok (prepare fs target k) (λ _. each (prepare fs target) ks) s t tt e in
      (
        each-keeps target k ks u t m a (prepare-Fresh target k s u r),
        each-Fresh target ks u t m more,
      )

  renew-ok : (p : Text) (s : S) → (t : S) × (renew fs p s ≡ (ok tt, t))
  unfolding renew
  renew-ok p s = elim (Bool-cases (fs.exists p s)) [
    | inr free ↦ let (t, made) = laws.makedirs_ok p s free in (t, ground (arith, free, made))
    | inl there ↦
        let (u, removed, free) = laws.rmtree_ok p s there in
        let (t, made) = laws.makedirs_ok p u free in (t, ground (arith, there, removed, made))
  ]

  prepare-ok :
      (target : Found) (k dir : Text) (s t : S)
      → path_entry k target.doc ≡ ok dir
      → renew fs (fs.join target.root dir) s ≡ (ok tt, t)
      → prepare fs target k s ≡ (ok tt, t)
  unfolding prepare
  prepare-ok target k dir s t named renewed =
      >>=-ok (lift (path_entry k target.doc)) (λ dir. renew fs (fs.join target.root dir)) s s dir
        (ap (λ r. (r, s)) named)
      ∙ renewed

  each-ok :
      (target : Found) (ks : List Text) (s : S)
      → All (Named target) ks
      → (t : S) × (each (prepare fs target) ks s ≡ (ok tt, t))
  each-ok target [] s a = (s, refl)
  each-ok target (k ∷ ks) s ((dir, named), more) =
      let (u, renewed) = renew-ok (fs.join target.root dir) s in
      let (t, rest) = each-ok target ks u more in
      let step = prepare-ok target k dir s u named renewed in
      (t, >>-ok (prepare fs target k) (each (prepare fs target) ks) s u tt step ∙ rest)

  -- When all five entries are texts, no directory of a target lies in another, what is there can be
  -- removed, a directory can be made where nothing is, and both leave alone what is apart from their
  -- path, then `prep_target` succeeds and leaves all five directories empty, whatever there was.
  pub prep_target-Fresh :
      (target : Found) (s : S)
      → All (Named target) prepared_keys
      → Apart fs.join apart target prepared_keys
      → (t : S) × (prep_target fs target s ≡ (ok tt, t)) × All (Fresh target t) prepared_keys
  unfolding prep_target
  prep_target-Fresh target s n a =
      let (t, e) = each-ok target prepared_keys s n in
      (t, e, each-Fresh target prepared_keys s t e a)
