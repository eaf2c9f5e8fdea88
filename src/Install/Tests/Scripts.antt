-- ===== src/Install/Tests/Scripts.antt =====
-- Runs of the theorems on the scripts that are written.
use virt_ue_sensing.Base.{◌≡◌, refl, [], ◌∷◌, ◌++◌, nat_Eq}
use virt_ue_sensing.Base.Text.{Text, codes, text_eq, text_Eq}
use virt_ue_sensing.Base.Members.{mem, Distinct}
use virt_ue_sensing.Base.Split.{split_on}
use virt_ue_sensing.Install.{text_item}
use virt_ue_sensing.Install.Scripts.{write_apt}
use virt_ue_sensing.Install.Scripts.Lines.{write_apt-words}
use virt_ue_sensing.Install.Tests.{disk_fs, dedup, mem-dedup, dedup-Distinct}

write_apt-words_example :
    (line : Text) × (write_apt disk_fs dedup
        (codes "apt")
        (text_item (codes "lsof") ∷ text_item (codes "lsof") ∷ [])
        []
      ≡ disk_fs.write
          (codes "apt")
          (codes "#!/bin/bash\n" ++ (codes "apt-get install -y " ++ (line ++ codes "\n")))
          [])
    × Distinct (split_on b' ' line)
    × ((v : Text) → mem v (split_on b' ' line) ≡ mem v (codes "lsof" ∷ codes "lsof" ∷ []))
unfolding dedup text_eq
write_apt-words_example =
    write_apt-words disk_fs dedup dedup-Distinct mem-dedup (codes "apt")
      (text_item (codes "lsof") ∷ text_item (codes "lsof") ∷ []) (codes "lsof") (codes "lsof" ∷ [])
      [] refl (refl, tt)
