-- ===== src/Nfs/Const/Mount3.antt =====
-- MOUNT v3 in nfs_const.py: `Mount3_ProcedureValMap` and `Mount3_ValStatMap`.
use virt_ue_sensing.Base.{ℕ, [], ◌∷◌}
use virt_ue_sensing.Base.Dict.{Dict}
use virt_ue_sensing.Base.Text.{Text, codes}

abbrev pub null : ℕ
null = 0

abbrev pub mnt : ℕ
mnt = 1

abbrev pub dump : ℕ
dump = 2

abbrev pub umnt : ℕ
umnt = 3

abbrev pub umntall : ℕ
umntall = 4

abbrev pub export : ℕ
export = 5

-- `MOUNT3_OK`
abbrev pub mount3_ok : ℕ
mount3_ok = 0

-- `Mount3_ValStatMap`
unfoldable pub val_stat_map : Dict ℕ Text
val_stat_map =
    (0, codes "MNT3_OK")
    ∷ (1, codes "MNT3ERR_PERM")
    ∷ (2, codes "MNT3ERR_NOENT")
    ∷ (5, codes "MNT3ERR_IO")
    ∷ (13, codes "MNT3ERR_ACCES")
    ∷ (20, codes "MNT3ERR_NOTDIR")
    ∷ (22, codes "MNT3ERR_INVAL")
    ∷ (63, codes "MNT3ERR_NAMETOOLONG")
    ∷ (10004, codes "MNT3ERR_NOTSUPP")
    ∷ (10006, codes "MNT3ERR_SERVERFAULT")
    ∷ []
