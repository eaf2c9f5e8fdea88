-- ===== src/Wrapper/Files.antt =====
-- `which_file`, and the check sum of `report_on_file` (sensors/wrapper/sensor_wrapper.py).
use virt_ue_sensing.Base.{
  ℕ, zero, suc, ◌-◌, ◌≤◌, ◌<◌, ◌≡◌, ◌++◌, ◌⊎◌, inl, inr, refl, Bool, true, false, Option, some,
  none, List, [], ◌∷◌, arith, if◌then◌else◌, length, take, drop, All, Bool-cases,
}
use virt_ue_sensing.Base.Text.{Text, codes, join_path, text_Eq}
use virt_ue_sensing.Base.Split.{split_on}
use virt_ue_sensing.Base.Dict.{Dict, get}
use virt_ue_sensing.Base.Exec.{Result, ok, or_raise, then_result, key_error}

-- `os.path.isfile`
module _ (isfile : Text → Bool) where
  unfoldable pub first_file : Text → List Text → Option Text
  first_file name [] = none
  first_file name (path ∷ paths) =
      let rest = first_file name paths in
      if isfile (join_path path name) then some (join_path path name) else rest

  -- `which_file`, where `os.pathsep` is ':'
  unfoldable pub which_file : Dict Text Text → Text → Result (Option Text)
  unfolding first_file get split_on
  which_file environ name =
      then_result (or_raise key_error (get (codes "PATH") environ))
        λ path. ok (first_file name (split_on b':' path))

  -- The file is in none of the directories, or in this one and in none before it.
  pub record FoundIn (name : Text) (paths : List Text) (file : Text) : Type 0 where
    pub before : List Text
    pub path : Text
    pub after : List Text
    pub split : paths ≡ before ++ (path ∷ after)
    pub named : file ≡ join_path path name
    pub there : isfile file ≡ true
    pub first : All (λ p. isfile (join_path p name) ≡ false) before

  first_file-cases :
      (name : Text) (paths : List Text)
      → ((first_file name paths ≡ none) × All (λ p. isfile (join_path p name) ≡ false) paths)
        ⊎ ((file : Text) × (first_file name paths ≡ some file) × FoundIn name paths file)
  unfolding first_file
  first_file-cases name [] = inl (refl, tt)
  first_file-cases name (path ∷ paths) = elim (Bool-cases (isfile (join_path path name))) [
    | inl here ↦ inr (
      join_path path name,
      ground arith,
      record {
        before = [];
        path = path;
        after = paths;
        split = refl;
        named = refl;
        there = here;
        first = tt;
      },
    )
    | inr absent ↦ elim (first_file-cases name paths) [
      | inl (e, nowhere) ↦ inl (ground arith, (absent, nowhere))
      | inr (file, e, w) ↦ inr (
        file,
        ground arith,
        record {
          before = path ∷ w.before;
          path = w.path;
          after = w.after;
          split = ground (arith, w.split);
          named = w.named;
          there = w.there;
          first = (absent, w.first);
        },
      )
    ]
  ]

  -- With a PATH, the result is the file in the first of its directories that has it, or no file and
  -- none has it.
  pub which_file-first :
      (environ : Dict Text Text) (name path : Text)
      → get (codes "PATH") environ ≡ some path
      → ((which_file environ name ≡ ok none)
          × All (λ p. isfile (join_path p name) ≡ false) (split_on b':' path))
        ⊎ ((file : Text) × (which_file environ name ≡ ok (some file))
            × FoundIn name (split_on b':' path) file)
  unfolding which_file
  which_file-first environ name path e = elim (first_file-cases name (split_on b':' path)) [
    | inl (f, nowhere) ↦ inl (ground arith, nowhere)
    | inr (file, f, w) ↦ inr (file, ground arith, w)
  ]

-- A digest's `update` on its state, the chunks of `size` bytes read until one is empty; `f` is fuel.
module _ {ℓ} {H : Type ℓ} (update : H → Text → H) where
  unfoldable pub hash_chunks : ℕ → ℕ → H → Text → H
  hash_chunks size zero h s = h
  hash_chunks size (suc f) h [] = h
  hash_chunks size (suc f) h (c ∷ s) =
      hash_chunks size f (update h (take size (c ∷ s))) (drop size (c ∷ s))

  -- The loop of `report_on_file`, with the digest's initial state and `hexdigest`.
  unfoldable pub sha512_of : H → (H → Text) → Text → Text
  unfolding hash_chunks
  sha512_of empty hexdigest content = hexdigest (hash_chunks 4096 (length content) empty content)

take-drop {κ} : {A : Type κ} (n : ℕ) (s : List A) → take n s ++ drop n s ≡ s
take-drop zero s = refl
take-drop (suc n) [] = refl
take-drop (suc n) (c ∷ s) = ground (arith, take-drop n s)

length-drop {κ} : {A : Type κ} (n : ℕ) (s : List A) → length (drop n s) ≡ length s - n
length-drop zero s = omega arith
length-drop (suc n) [] = omega arith
length-drop (suc n) (c ∷ s) = omega (arith, length-drop n s)

-- What hashlib documents: updates add up to one of the joined data.
module _ {ℓ} {H : Type ℓ} (update : H → Text → H)
    (update-append : (h : H) (a b : Text) → update (update h a) b ≡ update h (a ++ b))
    (update-nil : (h : H) → update h [] ≡ h) where
  hash_chunks-update :
      (size f : ℕ) (h : H) (s : Text)
      → 0 < size
      → length s ≤ f
      → hash_chunks update size f h s ≡ update h s
  unfolding hash_chunks
  hash_chunks-update size zero h [] p q = ground (arith, update-nil h)
  hash_chunks-update size zero h (c ∷ s) p q = absurd (ground arith)
  hash_chunks-update size (suc f) h [] p q = ground (arith, update-nil h)
  hash_chunks-update size (suc f) h (c ∷ s) p q =
      let part = take size (c ∷ s) in
      let rest = drop size (c ∷ s) in
      ground (
        arith,
        hash_chunks-update size f (update h part) rest p (omega (arith, length-drop size (c ∷ s))),
        update-append h part rest,
        take-drop size (c ∷ s),
      )

  -- For a digest whose updates add up to one of the joined data, the digest read in chunks of 4096
  -- bytes is that of the whole content.
  pub sha512_of-whole :
      (empty : H) (hexdigest : H → Text) (content : Text)
      → sha512_of update empty hexdigest content ≡ hexdigest (update empty content)
  unfolding sha512_of
  sha512_of-whole empty hexdigest content =
      ground
        (arith, hash_chunks-update 4096 (length content) empty content (omega arith) (omega arith))
