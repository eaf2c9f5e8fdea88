-- ===== src/Nfs/Rpc/Framing.antt =====
-- The record marker that passes the check.
use virt_ue_sensing.Base.{◌↔◌, ℕ, ◌/◌, ◌%◌, ◌^◌, ◌≤◌, ◌<◌, ◌≡◌, arith}
use virt_ue_sensing.Base.Exec.{ok}
use virt_ue_sensing.Nfs.Rpc.{check_marker, dissect_marker, marker_post_dissection}

-- Of a 32-bit word that `pre_dissect` lets pass, `post_dissection` leaves the marker that RFC 1831
-- means: `last` is the highest bit and `len` the other 31 bits, at most 64 KiB.
pub marker_fields :
    (field : ℕ)
    → field < 2 ^ 32
    → check_marker field ≡ ok tt
    → let m = marker_post_dissection (dissect_marker field) in
      (m.last ≡ field / 2 ^ 31) × (m.len ≡ field % 2 ^ 31) × (m.len ≤ 2 ^ 16)
unfolding check_marker dissect_marker marker_post_dissection
marker_fields field w h = ground arith

-- The check passes exactly the words whose 31 low bits are at most 64 KiB.
pub check_marker_iff :
    (field : ℕ) → field < 2 ^ 32 → (check_marker field ≡ ok tt) ↔ (field % 2 ^ 31 ≤ 2 ^ 16)
unfolding check_marker
check_marker_iff field w = (λ h. ground arith, λ h. ground arith)
