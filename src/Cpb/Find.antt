-- ===== src/Cpb/Find.antt =====
-- get_ref_from_cpb finds the frame that the mode means.
use rockchip_kmpp.Prelude.{ℕ, ◌≤◌, ◌<◌, ◌≡◌, arith, some}
use rockchip_kmpp.Prelude.Int.{ℤ, pos, negsuc, pos_part}
use rockchip_kmpp.RefTypes.{FrmStatus}
use rockchip_kmpp.Cpb.{VirtualCpb, get_ref_from_cpb, cell}
use rockchip_kmpp.Cpb.History.{History, referred, HasArg, IsIndex}
use rockchip_kmpp.Cpb.Track.{Tracks}

-- A cell at an index in range.
cell-index :
    (size : ℕ) (arr : ℕ → FrmStatus) (a : ℤ)
    → 16 ≤ size
    → IsIndex a
    → cell size arr a ≡ some (arr (pos_part a))
cell-index size arr (pos i) s h = ground arith
cell-index size arr (negsuc i) s h = absurd h

index-lt : (a : ℤ) → IsIndex a → pos_part a < 16
index-lt (pos i) h = h
index-lt (negsuc i) h = absurd h

-- On a buffer that answers each mode as a history does, get_ref_from_cpb finds the frame that the
-- mode means in that history, or none for an intra frame or a mode without a meaning, if the
-- argument is from 0 to 15 where the mode takes one.
pub get_ref_from_cpb_lem :
    (cpb : VirtualCpb) (frm : FrmStatus) (h : History)
    → Tracks cpb h
    → HasArg frm
    → get_ref_from_cpb cpb frm ≡ some (referred h frm)
unfolding get_ref_from_cpb
get_ref_from_cpb_lem cpb frm h v arg = ground (
  arith,
  v.layer (pos_part frm.ref_arg),
  v.lt_frame (pos_part frm.ref_arg),
  v.window (pos_part frm.ref_arg),
  index-lt frm.ref_arg,
  cell-index 16 cpb.st_tid_refs frm.ref_arg,
  cell-index 16 cpb.lt_idx_refs frm.ref_arg,
  cell-index 32 cpb.cpb_refs frm.ref_arg,
)
