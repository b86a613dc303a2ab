-- ===== src/Maths/Tests.antt =====
-- Logarithms of two words.
use rockchip_kmpp.Prelude.{◌≡◌, refl, arith}
use rockchip_kmpp.Maths.{mpp_log2, log2_16, log2_tab, IsLog, mpp_log2_lem}

log2_60 : mpp_log2 60 ≡ 5
unfolding mpp_log2 log2_16 log2_tab
log2_60 = refl

mpp_log2_lem_example : IsLog (mpp_log2 70000) 70000
mpp_log2_lem_example = mpp_log2_lem 70000 (omega arith) (omega arith)
