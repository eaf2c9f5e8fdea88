-- ===== src/Tools/Handles/Tests.antt =====
-- A round of the handlelist sensor over two processes.
use virt_ue_sensing.Base.{◌≡◌, refl, some, none, List, [], ◌∷◌, map}
use virt_ue_sensing.Base.Text.{Text, codes, text_eq}
use virt_ue_sensing.Base.Split.{split_on}
use virt_ue_sensing.Base.Log.{log_message}
use virt_ue_sensing.Tools.Handles.{
  HandleEntry, Owner, handlelist, line_of, is_rule, owner_of, entry_of, words,
}
use virt_ue_sensing.Tools.Handles.Blocks.{
  add_all, but_last, single, Entries, last, entry, Blocks, end, block, handlelist-Blocks,
}

abbrev smss : Owner
smss = record {
  pid = codes "4";
  image_name = codes "smss.exe";
  user = codes "SYSTEM ";
  handles = [];
}

abbrev lsass : Owner
lsass = record {
  pid = codes "8";
  image_name = codes "lsass.exe";
  user = codes "NT SYSTEM ";
  handles = [];
}

abbrev disk_entry : HandleEntry
disk_entry = record {
  handle = codes "10";
  handle_type = codes "File";
  object_access = codes "(RW-)";
  object_path = codes "C:\\a";
}

abbrev printed : List Text
printed =
    codes "----\n"
    ∷ codes "smss.exe pid: 4 SYSTEM\n"
    ∷ codes "10: File (RW-) C:\\a\n"
    ∷ codes "----\n"
    ∷ codes "lsass.exe pid: 8 NT SYSTEM\n"
    ∷ []

disk_entries : Entries some (codes "10: File (RW-) C:\\a\n" ∷ []) (disk_entry ∷ [])
unfolding line_of is_rule entry_of words split_on text_eq
disk_entries = entry {line = codes "10: File (RW-) C:\\a"} refl refl refl last

two-Blocks : Blocks some printed (add_all (disk_entry ∷ []) smss ∷ lsass ∷ [])
unfolding line_of is_rule owner_of words text_eq
two-Blocks =
    block {rule = codes "----"} {line = codes "smss.exe pid: 4 SYSTEM"} {o = smss} refl refl refl
      refl disk_entries
      (block {rule = codes "----"} {line = codes "lsass.exe pid: 8 NT SYSTEM"} {o = lsass}
        {rest = []} refl refl refl refl last end)

handlelist-Blocks_example : handlelist some none (codes "now") [] printed ≡ record {
  messages =
      map
        (λ p. log_message (codes "now") (codes "info") (single p) [])
        (but_last (add_all (disk_entry ∷ []) smss) (lsass ∷ []));
  raised = none;
}
handlelist-Blocks_example =
    handlelist-Blocks some none (codes "now") [] printed (add_all (disk_entry ∷ []) smss)
      (lsass ∷ []) two-Blocks
