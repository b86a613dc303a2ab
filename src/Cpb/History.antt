-- ===== src/Cpb/History.antt =====
-- What the reference modes of vcodec/inc/rk_venc_ref.h mean, on the list of the reference frames
-- since the last IDR frame, the latest first. Nothing here knows how the buffer stores them.
use rockchip_kmpp.Prelude.{
  ℕ, zero, suc, ◌<◌, ◌≡◌, Bool, true, not, ◌&&◌, leb, ◌==◌, if◌then◌else◌, List, [], ◌∷◌, Option,
  none, some,
}
use rockchip_kmpp.Prelude.Int.{ℤ, pos, negsuc, pos_part}
use rockchip_kmpp.RefTypes.{FrmStatus, no_frm}

abbrev pub History : Type 0
History = List FrmStatus

-- The latest frame that fits, or the empty frame.
abbrev pub latest : (FrmStatus → Bool) → History → FrmStatus
latest fits [] = no_frm
latest fits (f ∷ h) = if fits f then f else latest fits h

abbrev pub pick : FrmStatus → (ℕ → FrmStatus) → ℕ → FrmStatus
pick f rest zero = f
pick f rest (suc i) = rest i

-- The short-term frame that `i` others have followed.
abbrev pub nth_st : History → ℕ → FrmStatus
nth_st [] i = no_frm
nth_st (f ∷ h) i = if f.is_lt_ref then nth_st h i else pick f (nth_st h) i

-- A frame joins the history unless it is no reference.
abbrev pub remember : FrmStatus → History → History
remember f h = if f.is_non_ref then h else f ∷ h

abbrev pub is_st : FrmStatus → Bool
is_st f = not f.is_lt_ref

abbrev pub has_tid : ℕ → FrmStatus → Bool
has_tid t f = f.temporal_id == t

abbrev pub has_lt_idx : ℕ → FrmStatus → Bool
has_lt_idx k f = f.is_lt_ref && (f.lt_idx == k)

-- The frame that each mode refers to. `none`: an intra frame, or a mode that has no meaning here.
abbrev pub referred : History → FrmStatus → Option FrmStatus
referred h frm =
    let arg = pos_part frm.ref_arg in
    if frm.is_intra
    then none
    else if frm.ref_mode == 0
    then some (latest (λ _. true) h)
    else if frm.ref_mode == 1
    then some (latest is_st h)
    else if frm.ref_mode == 2
    then some (latest (λ f. f.is_lt_ref) h)
    else if frm.ref_mode == 3
    then some (latest (λ f. f.is_intra) h)
    else if frm.ref_mode == 4
    then some (latest (has_tid arg) h)
    else if frm.ref_mode == 5
    then some (latest (has_lt_idx arg) h)
    else if frm.ref_mode == 6
    then some (nth_st h arg)
    else none

abbrev pub IsIndex : ℤ → Type 0
IsIndex (pos a) = a < 16
IsIndex (negsuc a) = ⊥

-- The argument of a mode that takes one counts frames, layers or indices up to 15.
abbrev pub HasArg : FrmStatus → Type 0
HasArg frm = leb 4 frm.ref_mode ≡ true → leb frm.ref_mode 6 ≡ true → IsIndex frm.ref_arg
