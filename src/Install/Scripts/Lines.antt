-- ===== src/Install/Scripts/Lines.antt =====
-- What the written files say when they are read again.
use virt_ue_sensing.Base.{
  ◌≡◌, refl, ap, true, false, List, [], ◌∷◌, ◌++◌, map, All, arith, append_assoc, ◌∙◌,
}
use virt_ue_sensing.Base.Text.{Text, codes, text_Eq}
use virt_ue_sensing.Base.Members.{mem, Distinct}
use virt_ue_sensing.Base.Split.{split_on, join_with, has_char, split_on-append, split_on-join_with}
use virt_ue_sensing.Base.Exec.{ok, lift, ◌>>=◌, >>=-ok}
use virt_ue_sensing.Install.{Item, Found, Fs}
use virt_ue_sensing.Install.Place.{target_dir, abs_join}
use virt_ue_sensing.Install.Scripts.{
  written, requirement_line, create_requirements_master, all_texts, apt_text, write_apt,
  write_texts,
}

written-lines :
    (files : List Text)
    → All (λ f. has_char b'\n' f ≡ false) files
    → split_on b'\n' (written requirement_line files)
      ≡ map (λ f. codes "-r " ++ f) files ++ ([] ∷ [])
unfolding split_on
written-lines [] h = refl
written-lines (f ∷ fs) (h, more) =
    ap (split_on b'\n') (
      ap (λ l. codes "-r " ++ l) (append_assoc f (codes "\n") (written requirement_line fs) ∙ refl))
    ∙ (split_on-append b'\n' (codes "-r " ++ f) (written requirement_line fs) (h)
        ∙ ap (λ l. (codes "-r " ++ f) ∷ l) (written-lines fs more))

module _ {ℓ} {S : Type ℓ} (fs : Fs S) where
  -- The master file has a line `-r` for each file that is in the directory before it is written, as
  -- long as no name has a line break.
  pub create_requirements_master-lines :
      (target : Found) (dir : Text) (files : List Text) (s u : S)
      → target_dir fs (codes "requirements_directory") target ≡ ok dir
      → fs.listdir dir s ≡ (ok files, u)
      → All (λ f. has_char b'\n' f ≡ false) files
      → (text : Text) × (create_requirements_master fs target s
          ≡ fs.write (abs_join fs dir (codes "requirements_master.txt")) text u)
        × (split_on b'\n' text ≡ map (λ f. codes "-r " ++ f) files ++ ([] ∷ []))
  unfolding create_requirements_master
  create_requirements_master-lines target dir files s u d e h = (
    written requirement_line files,
    >>=-ok (lift (target_dir fs (codes "requirements_directory") target))
          (λ r. fs.listdir r >>= λ fl.
            fs.write (abs_join fs r (codes "requirements_master.txt"))
              (written requirement_line fl))
          s s dir (ap (λ r. (r, s)) d)
        ∙ >>=-ok (fs.listdir dir)
            (λ fl.
              fs.write (abs_join fs dir (codes "requirements_master.txt"))
                (written requirement_line fl))
            s u files e,
    written-lines files h,
  )

  -- `list(set(xs))` has each member once.
  module _ (set_list : List Text → List Text)
      (set_list-Distinct : (ws : List Text) → Distinct (set_list ws))
      (mem-set_list : (w : Text) (ws : List Text) → mem w (set_list ws) ≡ mem w ws) where
    apt_text-words :
        (w : Text) (xs : List Text)
        → mem w xs ≡ true
        → All (λ v. has_char b' ' v ≡ false) xs
        → (line : Text) × (apt_text fs set_list xs
            ≡ codes "#!/bin/bash\n" ++ (codes "apt-get install -y " ++ (line ++ codes "\n")))
          × (split_on b' ' line ≡ xs)
    apt_text-words w [] m h = absurd cc
    apt_text-words w (v ∷ vs) m h =
        (join_with (codes " ") (v ∷ vs), refl, split_on-join_with b' ' v vs h)

    -- The script for `apt-get` installs each package that is asked for, and each once, as long as some
    -- are asked for, all are texts and none has a space.
    pub write_apt-words :
        (path : Text) (libs : List Item) (w : Text) (ws : List Text) (s : S)
        → all_texts libs ≡ ok (w ∷ ws)
        → All (λ v. has_char b' ' v ≡ false) (set_list (w ∷ ws))
        → (line : Text) × (write_apt fs set_list path libs s
            ≡ fs.write path
                (codes "#!/bin/bash\n" ++ (codes "apt-get install -y " ++ (line ++ codes "\n")))
                s)
          × Distinct (split_on b' ' line)
          × ((v : Text) → mem v (split_on b' ' line) ≡ mem v (w ∷ ws))
    unfolding write_apt
    write_apt-words path libs w ws s e h =
        let xs = set_list (w ∷ ws) in
        let (line, t, words) =
          apt_text-words w xs
            (mem-set_list w (w ∷ ws) ∙ ground (arith, (text_Eq.beq_iff w w).1 refl)) h in
        (
          line,
          ap (λ r. write_texts fs set_list path r s) e ∙ ap (λ text. fs.write path text s) t,
          rw words (set_list-Distinct (w ∷ ws)),
          λ v. rw words (mem-set_list v (w ∷ ws)),
        )
