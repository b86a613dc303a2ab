-- ===== src/RcData/Mean.antt =====
-- The mean of the statistics.
use native.Mathlib.Nat.{suc-mul, mul_comm, le-div_iff_mul-le, div-le_of_le-mul, zero-mul}
use rockchip_kmpp.Prelude.{ℕ, zero, suc, ◌+◌, ◌*◌, ◌/◌, ◌^◌, ◌≤◌, ◌<◌, ◌≡◌, refl, ap, ◌∙◌, arith}
use rockchip_kmpp.Prelude.Int.{pos, ◌+ℤ◌}
use rockchip_kmpp.RcData.{Data, s32, data_mean, div_s64}
use rockchip_kmpp.RcData.Window.{Keeps, total}

-- The sum of values that are not negative.
abbrev pub total_ℕ : ℕ → (ℕ → ℕ) → ℕ
total_ℕ zero u = 0
total_ℕ (suc n) u = total_ℕ n u + u n

total-pos : (n : ℕ) (u : ℕ → ℕ) → total n (λ k. pos (u k)) ≡ pos (total_ℕ n u)
unfolding ◌+ℤ◌
total-pos zero u = refl
total-pos (suc n) u = ap (λ z. z +ℤ pos (u n)) (total-pos n u) ∙ ground arith

total_ℕ-ge : (n lo : ℕ) (u : ℕ → ℕ) → ((k : ℕ) → k < n → lo ≤ u k) → n * lo ≤ total_ℕ n u
total_ℕ-ge zero lo u h = omega (arith, zero-mul lo)
total_ℕ-ge (suc n) lo u h =
    omega (arith, suc-mul n lo, total_ℕ-ge n lo u (λ k l. h k (omega arith)), h n (omega arith))

total_ℕ-le : (n hi : ℕ) (u : ℕ → ℕ) → ((k : ℕ) → k < n → u k ≤ hi) → total_ℕ n u ≤ n * hi
total_ℕ-le zero hi u h = omega (arith, zero-mul hi)
total_ℕ-le (suc n) hi u h =
    omega (arith, suc-mul n hi, total_ℕ-le n hi u (λ k l. h k (omega arith)), h n (omega arith))

s32-small : (m : ℕ) → m < 2 ^ 31 → s32 (pos m) ≡ pos m
s32-small m h = ground arith

-- On statistics that keep a window of values from `lo` to `hi`, where `lo` is not negative and
-- `hi` fits 32 bits, what mpp_data_mean_v2 returns is from `lo` to `hi`.
data_mean-bounds :
    (p : Data) (u : ℕ → ℕ) (lo hi : ℕ)
    → Keeps p (λ k. pos (u k))
    → ((k : ℕ) → k < p.size → lo ≤ u k)
    → ((k : ℕ) → k < p.size → u k ≤ hi)
    → hi < 2 ^ 31
    → (m : ℕ) × (data_mean p ≡ pos m) × (lo ≤ m) × (m ≤ hi)
unfolding data_mean
data_mean-bounds p u lo hi v above below fits =
    let t = total_ℕ p.size u in
    let low : lo ≤ t / p.size =
      (le-div_iff_mul-le {k = p.size} {x = lo} {y = t} v.some_size).1
        (omega (arith, mul_comm lo p.size, total_ℕ-ge p.size lo u above)) in
    let high : t / p.size ≤ hi = div-le_of_le-mul p.size (total_ℕ-le p.size hi u below) in
    (
      t / p.size,
      ap (λ z. s32 (div_s64 z p.size)) (v.summed ∙ total-pos p.size u)
          ∙ s32-small (t / p.size) (omega (arith, high, fits)),
      low,
      high,
    )
