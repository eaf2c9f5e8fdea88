-- ===== src/Nfs/Key.antt =====
-- The names that the state monitor files handles under: the `NFS3_path` packet of a mount, or the
-- text that `os.path.join` built.
use virt_ue_sensing.Base.{◌≡◌, ◌↔◌, Bool, true, false, Eq, ap, arith, not, []}
use virt_ue_sensing.Base.Text.{Text, text_eq, text_eq_sound, text_eq_refl}
use virt_ue_sensing.Nfs.Packet.{NfsPath, str_path}

pub data Key : Type 0 where
  path_key : NfsPath → Key
  str_key : Text → Key

-- `str(k)`
abbrev pub str : Key → Text
str (path_key p) = str_path p
str (str_key t) = t

-- A packet counts as true, and so does a text that is not empty.
unfoldable pub truthy : Key → Bool
unfolding text_eq
truthy (path_key p) = true
truthy (str_key t) = not (text_eq t [])

module _ ⦃pe : Eq NfsPath⦄ where
  -- scapy's `==` is false between a packet and a text.
  abbrev pub key_beq : Key → Key → Bool
  key_beq (path_key p) (path_key q) = pe.beq p q
  key_beq (str_key s) (str_key t) = text_eq s t
  key_beq (path_key p) (str_key t) = false
  key_beq (str_key s) (path_key q) = false

  pub key_beq_iff : (j k : Key) → (key_beq j k ≡ true) ↔ (j ≡ k)
  key_beq_iff (path_key p) (path_key q) =
      (λ h. ap path_key ((pe.beq_iff p q).0 h), λ h. (pe.beq_iff p q).1 (cc))
  key_beq_iff (str_key s) (str_key t) =
      (λ h. ap str_key (text_eq_sound s t h), λ h. ground (arith, text_eq_refl s))
  key_beq_iff (path_key p) (str_key t) = (λ h. cc, λ h. cc)
  key_beq_iff (str_key s) (path_key q) = (λ h. cc, λ h. cc)

  instance abbrev pub key_Eq : Eq Key
  key_Eq = record { beq = key_beq; beq_iff = key_beq_iff }
