-- ===== src/BitWriter/Signed.antt =====
-- The code numbers of signed values.
use rockchip_kmpp.Prelude.{ℕ, zero, suc, ◌+◌, ◌-◌, ◌*◌, ◌≡◌, refl}
use rockchip_kmpp.Prelude.Int.{ℤ, pos, negsuc}
use rockchip_kmpp.Prelude.Word.{u32}
use rockchip_kmpp.BitWriter.{WriteCtx, put_ue, put_se}

-- Table 9-3 of H.264, on 32 bits.
abbrev pub se_number : ℤ → ℕ
se_number (pos zero) = 0
se_number (pos (suc n)) = u32 (2 * suc n - 1)
se_number (negsuc n) = u32 (2 * (n + 1))

pub put_se_lem : (c : WriteCtx) (z : ℤ) → put_se c z ≡ put_ue c (se_number z)
unfolding put_se
put_se_lem c (pos zero) = refl
put_se_lem c (pos (suc n)) = refl
put_se_lem c (negsuc n) = refl
