-- ===== src/Nfs/Const/Nfs3.antt =====
-- NFS v3 in nfs_const.py: `Nfs3_ProcedureValMap` and `Nfs3_ValStatMap`.
use virt_ue_sensing.Base.{ℕ, [], ◌∷◌}
use virt_ue_sensing.Base.Dict.{Dict}
use virt_ue_sensing.Base.Text.{Text, codes}

abbrev pub null : ℕ
null = 0

abbrev pub getattr : ℕ
getattr = 1

abbrev pub setattr : ℕ
setattr = 2

abbrev pub lookup : ℕ
lookup = 3

abbrev pub access : ℕ
access = 4

abbrev pub readlink : ℕ
readlink = 5

abbrev pub read : ℕ
read = 6

abbrev pub write : ℕ
write = 7

abbrev pub create : ℕ
create = 8

abbrev pub mkdir : ℕ
mkdir = 9

abbrev pub symlink : ℕ
symlink = 10

abbrev pub mknod : ℕ
mknod = 11

abbrev pub remove : ℕ
remove = 12

abbrev pub rmdir : ℕ
rmdir = 13

abbrev pub rename : ℕ
rename = 14

abbrev pub link : ℕ
link = 15

abbrev pub readdir : ℕ
readdir = 16

abbrev pub readdirplus : ℕ
readdirplus = 17

abbrev pub fsstat : ℕ
fsstat = 18

abbrev pub fsinfo : ℕ
fsinfo = 19

abbrev pub pathconf : ℕ
pathconf = 20

abbrev pub commit : ℕ
commit = 21

-- `NFS3_OK`
abbrev pub nfs3_ok : ℕ
nfs3_ok = 0

-- `Nfs3_ValStatMap`
unfoldable pub val_stat_map : Dict ℕ Text
val_stat_map =
    (0, codes "NFS3_OK")
    ∷ (1, codes "NFS3ERR_PERM")
    ∷ (2, codes "NFS3ERR_NOENT")
    ∷ (5, codes "NFS3ERR_IO")
    ∷ (6, codes "NFS3ERR_NXIO")
    ∷ (13, codes "NFS3ERR_ACCES")
    ∷ (17, codes "NFS3ERR_EXIST")
    ∷ (18, codes "NFS3ERR_XDEV")
    ∷ (19, codes "NFS3ERR_NODEV")
    ∷ (20, codes "NFS3ERR_NOTDIR")
    ∷ (21, codes "NFS3ERR_ISDIR")
    ∷ (22, codes "NFS3ERR_INVAL")
    ∷ (27, codes "NFS3ERR_FBIG")
    ∷ (28, codes "NFS3ERR_NOSPC")
    ∷ (30, codes "NFS3ERR_ROFS")
    ∷ (31, codes "NFS3ERR_MLINK")
    ∷ (63, codes "NFS3ERR_NAMETOOLONG")
    ∷ (66, codes "NFS3ERR_NOTEMPTY")
    ∷ (69, codes "NFS3ERR_DQUOT")
    ∷ (70, codes "NFS3ERR_STALE")
    ∷ (71, codes "NFS3ERR_REMOTE")
    ∷ (10001, codes "NFS3ERR_BADHANDLE")
    ∷ (10002, codes "NFS3ERR_NOT_SYNC")
    ∷ (10003, codes "NFS3ERR_BAD_COOKIE")
    ∷ (10004, codes "NFS3ERR_NOTSUPP")
    ∷ (10005, codes "NFS3ERR_TOOSMALL")
    ∷ (10006, codes "NFS3ERR_SERVERFAULT")
    ∷ (10007, codes "NFS3ERR_BADTYPE")
    ∷ (10008, codes "NFS3ERR_JUKEBOX")
    ∷ []
