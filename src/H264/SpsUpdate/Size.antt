-- ===== src/H264/SpsUpdate/Size.antt =====
-- The picture that a decoder finds in the sequence parameter set, clause 7.4.2.1.1 of H.264.
use rockchip_kmpp.Prelude.{
  ℕ, ◌+◌, ◌-◌, ◌*◌, ◌/◌, ◌^◌, ◌≤◌, ◌<◌, ◌≡◌, arith, false, ◌||◌, if◌then◌else◌, Bool-cases, inl,
  inr,
}
use rockchip_kmpp.Prelude.Word.{u32}
use rockchip_kmpp.Maths.{align16}
use rockchip_kmpp.H264.{Sps}
use rockchip_kmpp.H264.Chain.{is_set}
use rockchip_kmpp.H264.SpsWrite.{pred32}
use rockchip_kmpp.H264.SpsUpdate.{
  SpsCfg, sps_update, made_crop, crop_right, crop_bottom, is_cropped,
}

-- Whole macroblocks, less the offsets of the cropping in units of two samples.
abbrev pub decoded_width : Sps → ℕ
decoded_width sps =
    16 * (pred32 sps.pic_width_in_mbs + 1)
    - (if is_set sps.cropping then 2 * (sps.crop.left / 2 + sps.crop.right / 2) else 0)

abbrev pub decoded_height : Sps → ℕ
decoded_height sps =
    16 * (pred32 sps.pic_height_in_mbs + 1)
    - (if is_set sps.cropping then 2 * (sps.crop.top / 2 + sps.crop.bottom / 2) else 0)

pub align16_lem :
    (x : ℕ)
    → x < 2 ^ 31
    → (x ≤ align16 x) × (align16 x < x + 16) × (align16 x / 2 ^ 4 * 16 ≡ align16 x)
unfolding align16
align16_lem x h = omega arith

-- A side, of whole macroblocks less what is cropped in pairs.
side :
    (x : ℕ)
    → 0 < x
    → x < 2 ^ 31
    → 16 * (pred32 (align16 x / 2 ^ 4) + 1) - 2 * (0 / 2 + u32 (align16 x + (2 ^ 32 - x)) / 2)
      ≡ (x + 1) / 2 * 2
side x h k = omega (arith, align16_lem x k)

whole :
    (x : ℕ)
    → 0 < x
    → x < 2 ^ 31
    → u32 (align16 x + (2 ^ 32 - x)) ≡ 0
    → 16 * (pred32 (align16 x / 2 ^ 4) + 1) - 0 ≡ (x + 1) / 2 * 2
whole x h k e = omega (arith, align16_lem x k)

uncropped : (a b : ℕ) → (is_set a || is_set b) ≡ false → (a ≡ 0) × (b ≡ 0)
uncropped a b e = ground arith

-- For a picture that is not empty, a decoder finds in the set that h264e_sps_update makes the
-- configured width and height, each rounded up to an even number.
pub sps_update-size :
    (cfg : SpsCfg)
    → 0 < cfg.width
    → cfg.width < 2 ^ 31
    → 0 < cfg.height
    → cfg.height < 2 ^ 31
    → (decoded_width (sps_update cfg) ≡ (cfg.width + 1) / 2 * 2)
      × (decoded_height (sps_update cfg) ≡ (cfg.height + 1) / 2 * 2)
unfolding sps_update made_crop
sps_update-size cfg w w' h h' = elim (Bool-cases (is_cropped cfg)) [
  | inl e ↦ rw e (side cfg.width w w', side cfg.height h h')
  | inr e ↦
      let (right, bottom) = uncropped (crop_right cfg) (crop_bottom cfg) e in
      rw e (whole cfg.width w w' right, whole cfg.height h h' bottom)
]
