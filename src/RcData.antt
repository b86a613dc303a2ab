-- ===== src/RcData.antt =====
-- vcodec/mpp/codec/rc/rc_base.c: the statistics that the rate control keeps, the last `size` values
-- with their sum. A null pointer is left out, as is a failed allocation. The sum is exact: 64 bits
-- hold it, and the product in mpp_data_reset_v2 is one of 32-bit words, which C leaves undefined if
-- it does not fit. `none` is a read outside of the array.
pub mod Window
pub mod Mean
pub mod Tests
use rockchip_kmpp.Prelude.{
  ℕ, zero, suc, ◌+◌, ◌-◌, ◌*◌, ◌/◌, ◌%◌, ◌^◌, Bool, true, false, ltb, leb, ◌==◌, if◌then◌else◌,
  Option, none, some,
}
use rockchip_kmpp.Prelude.Int.{ℤ, pos, negsuc, pos_part, ltb_ℤ, ◌+ℤ◌, ◌-ℤ◌, ◌*ℤ◌}
use rockchip_kmpp.Prelude.Word.{update}
use rockchip_kmpp.Prelude.Cast.{low_bits}
use rockchip_kmpp.Prelude.Ret.{Ret, ok, err_null_ptr}

-- MppDataV2
pub record Data : Type 0 where
  pub size : ℕ
  pub len : ℕ
  pub pos_w : ℕ
  pub pos_r : ℕ
  pub val : ℕ → ℤ
  pub sum : ℤ

-- `(RK_S32)`
abbrev pub s32 : ℤ → ℤ
s32 z = let w = low_bits 32 z in if ltb w (2 ^ 31) then pos w else negsuc (2 ^ 32 - 1 - w)

-- mpp_data_reset_v2
unfoldable pub data_reset : Data → ℤ → Data
data_reset p val = record p {
  pos_r = p.size;
  pos_w = 0;
  sum = val *ℤ pos p.size;
  val = λ i. if ltb i p.size then val else p.val i;
}

-- mpp_data_init_v2. What the allocated memory holds is a parameter.
unfoldable pub data_init : (ℕ → ℤ) → ℤ → ℤ → Ret × Option Data
data_init memory size value =
    let p : Data = record {
      size = pos_part size;
      len = 0;
      pos_w = 0;
      pos_r = 0;
      val = memory;
      sum = pos 0;
    } in
    if ltb_ℤ (pos 0) size then (ok, some (data_reset p value)) else (err_null_ptr, none)

-- mpp_data_update_v2
unfoldable pub data_update : Data → ℤ → Data
data_update p val =
    let is_full = p.pos_r == p.size in
    let pos_r = if is_full then p.pos_r - 1 else p.pos_r in
    let kept = if is_full then p.sum -ℤ p.val p.pos_w else p.sum in
    record p {
      val = update p.val p.pos_w val;
      sum = kept +ℤ val;
      pos_r = pos_r + 1;
      pos_w = if leb p.size (p.pos_w + 1) then 0 else p.pos_w + 1;
    }

-- The position that mpp_data_get_pre_val_v2 reads.
abbrev pub counted : ℕ → ℤ → ℤ
counted size idx = if ltb_ℤ idx (pos 0) then pos size +ℤ idx else idx

unfoldable pub pre_pos : ℕ → ℕ → ℤ → ℤ
pre_pos size pos_w idx =
    let last = pos pos_w -ℤ pos 1 in
    if ltb_ℤ (last -ℤ idx) (pos 0) then pos size -ℤ (idx -ℤ last) else last -ℤ idx

-- mpp_data_get_pre_val_v2
unfoldable pub data_get_pre_val : Data → ℤ → Option ℤ
data_get_pre_val p idx =
    let at = pre_pos p.size p.pos_w (counted p.size idx) in
    if ltb_ℤ at (pos 0)
    then none
    else if ltb (pos_part at) p.size
    then some (p.val (pos_part at))
    else none

-- mpp_data_sum_v2
unfoldable pub data_sum : Data → ℤ
data_sum p = s32 p.sum

-- div_s64 rounds towards zero. The divisor is a size.
abbrev pub div_s64 : ℤ → ℕ → ℤ
div_s64 (pos n) d = pos (n / d)
div_s64 (negsuc n) d = pos 0 -ℤ pos (suc n / d)

-- mpp_data_mean_v2
unfoldable pub data_mean : Data → ℤ
data_mean p = s32 (div_s64 p.sum p.size)
