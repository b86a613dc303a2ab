-- ===== src/Maths.antt =====
-- vcodec/osal/mpp_maths.c, vcodec/osal/inc/mpp_maths.h: the binary logarithm by table, alignment.
mod Tests
use native.Mathlib.Nat.{pow-suc}
use rockchip_kmpp.Prelude.{
  ℕ, suc, ◌+◌, ◌*◌, ◌/◌, ◌^◌, ◌≤◌, ◌<◌, ◌≡◌, refl, arith, ltb, leb, if◌then◌else◌, Bool-cases, inl,
  inr,
}
use rockchip_kmpp.Prelude.Word.{u32, pow_add}

-- The entries of log2_tab, by their runs.
pub log2_tab : ℕ → ℕ
log2_tab v =
    if ltb v 2
    then 0
    else if ltb v 4
    then 1
    else if ltb v 8
    then 2
    else if ltb v 16
    then 3
    else if ltb v 32
    then 4
    else if ltb v 64
    then 5
    else if ltb v 128
    then 6
    else 7

-- `if (v & 0xff00)` and what follows, on a word of 16 bits.
pub log2_16 : ℕ → ℕ
log2_16 v = if leb (2 ^ 8) v then 8 + log2_tab (v / 2 ^ 8) else log2_tab v

-- mpp_log2 of a 32-bit word: `v & 0xffff0000` is not zero from 2 ^ 16 on.
unfoldable pub mpp_log2 : ℕ → ℕ
mpp_log2 v = if leb (2 ^ 16) v then 16 + log2_16 (v / 2 ^ 16) else log2_16 v

-- MPP_MIN
abbrev pub min : ℕ → ℕ → ℕ
min a b = if ltb b a then b else a

-- MPP_ALIGN(x, 16)
unfoldable pub align16 : ℕ → ℕ
align16 x = u32 (x + 15) / 16 * 16

-- The binary logarithm, rounded down.
abbrev pub IsLog : ℕ → ℕ → Type 0
IsLog n v = (2 ^ n ≤ v) × (v < 2 ^ suc n)

log2_tab_lem : (v : ℕ) → 0 < v → v < 2 ^ 8 → IsLog (log2_tab v) v
unfolding log2_tab
log2_tab_lem v h k = ground arith

-- The bits of a shift that is known come on top.
IsLog-shift8 : (n v : ℕ) → IsLog n (v / 2 ^ 8) → IsLog (8 + n) v
IsLog-shift8 n v h = omega (arith, pow_add 8 n, pow-suc 2 n, pow-suc 2 (8 + n))

IsLog-shift16 : (n v : ℕ) → IsLog n (v / 2 ^ 16) → IsLog (16 + n) v
IsLog-shift16 n v h = omega (arith, pow_add 16 n, pow-suc 2 n, pow-suc 2 (16 + n))

log2_16_lem : (v : ℕ) → 0 < v → v < 2 ^ 16 → IsLog (log2_16 v) v
unfolding log2_16
log2_16_lem v h k = elim (Bool-cases (leb (2 ^ 8) v)) [
  | inl e ↦ rw e (IsLog-shift8 _ v (log2_tab_lem (v / 2 ^ 8) (ground arith) (ground arith)))
  | inr e ↦ rw e (log2_tab_lem v h (ground arith))
]

-- mpp_log2 of a 32-bit word other than zero is its binary logarithm, rounded down.
pub mpp_log2_lem : (v : ℕ) → 0 < v → v < 2 ^ 32 → IsLog (mpp_log2 v) v
unfolding mpp_log2
mpp_log2_lem v h k = elim (Bool-cases (leb (2 ^ 16) v)) [
  | inl e ↦ rw e (IsLog-shift16 _ v (log2_16_lem (v / 2 ^ 16) (ground arith) (ground arith)))
  | inr e ↦ rw e (log2_16_lem v h (ground arith))
]
