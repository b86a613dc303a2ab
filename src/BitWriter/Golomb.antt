-- ===== src/BitWriter/Golomb.antt =====
-- The Exp-Golomb code words of put_ue and put_se, and the alignment at the end of a header.
use native.Mathlib.Nat.{one-le-pow, pow-le-pow_right, div-eq_of_lt, le-div_iff_mul-le}
use native.Mathlib.Decide.{dec_lt, ℕ_discrete}
use rockchip_kmpp.Prelude.{
  ℕ, zero, suc, ◌+◌, ◌-◌, ◌*◌, ◌/◌, ◌^◌, ◌≤◌, ◌<◌, ◌≡◌, refl, ap, ◌∙◌, List, ◌++◌, arith, true,
  false, ltb, ◌==◌,
}
use rockchip_kmpp.Prelude.Word.{u32, to_bits, to_bits-append}
use rockchip_kmpp.BitWriter.{WriteCtx, put_bits, count_bits, put_long, put_ue}
use rockchip_kmpp.BitWriter.Payload.{payload, IsWriting}
use rockchip_kmpp.BitWriter.Put.{Says, put_bits-Says, Says-then, Says-weaken}

-- `v` has `n` digits, the first of which is 1.
pub record HasWidth (n v : ℕ) : Type 0 where
  pub some_digits : 0 < n
  pub low : 2 ^ (n - 1) ≤ v
  pub high : v < 2 ^ n

div-pos : (k v : ℕ) → 2 ^ k ≤ v → 0 < v / 2 ^ k
div-pos k v h = (le-div_iff_mul-le (one-le-pow k 2 (omega arith))).1 (omega arith)

count_bits-from : (fuel n v k : ℕ) → HasWidth n v → k < n → n ≤ k + fuel → count_bits fuel v k ≡ n
unfolding count_bits
count_bits-from zero n v k w lo hi = absurd (omega arith)
count_bits-from (suc fuel) n v k w lo hi = elim (ℕ_discrete (k + 1) n) [
  | yes e ↦
      let test : (v / 2 ^ (k + 1) == 0) ≡ true =
        ground (arith, div-eq_of_lt {n = v} {m = 2 ^ (k + 1)} (rw e w.high)) in
      rw test e
  | no e ↦
      let grows : 2 ^ (k + 1) ≤ 2 ^ (n - 1) = pow-le-pow_right (omega arith) (omega arith) in
      let test : (v / 2 ^ (k + 1) == 0) ≡ false =
        ground (arith, div-pos (k + 1) v (omega (arith, w.low))) in
      rw test (count_bits-from fuel n v (k + 1) w (omega arith) (omega arith))
]

-- The loop ends, and counts the digits.
pub count_bits_lem : (n v : ℕ) → HasWidth n v → n ≤ 32 → count_bits 32 v 0 ≡ n
count_bits_lem n v w h = count_bits-from 32 n v 0 w w.some_digits h

-- The code word of a number: as many zeros as digits follow the first one, and the digits of v + 1.
abbrev pub ue_code : ℕ → ℕ → List ℕ
ue_code n v = to_bits (n - 1) 0 ++ to_bits n (v + 1)

-- A short code word is written by one call, its zeros as the leading digits of v + 1.
short_code :
    (s : ℕ) (c : WriteCtx) (n v : ℕ)
    → HasWidth n (v + 1)
    → payload s c ++ to_bits (2 * n - 1) (v + 1) ≡ payload s c ++ ue_code n v
short_code s c n v d =
    let length_is : 2 * n - 1 ≡ n - 1 + n = omega (arith, d.some_digits) in
    let value : v + 1 ≡ 0 * 2 ^ n + (v + 1) = omega arith in
    ap (λ t. payload s c ++ t)
      (ap (λ (t : ℕ). to_bits t (v + 1)) length_is
        ∙ ap (λ (t : ℕ). to_bits (n - 1 + n) t) value
        ∙ to_bits-append (n - 1) n 0 (v + 1) d.high)

-- On a writer in order whose buffer has room for ten bytes more, mpp_writer_put_ue of a number v,
-- where v + 1 has up to 24 digits, adds the Exp-Golomb code word of v to what a reader takes from
-- the section, and keeps it legal.
pub put_ue-Says :
    (s : ℕ) (c : WriteCtx) (v n : ℕ)
    → IsWriting s c
    → HasWidth n (v + 1)
    → n ≤ 24
    → c.byte_cnt + 10 ≤ c.size
    → Says s c (put_ue c v) (payload s c ++ ue_code n v) (c.byte_cnt + 12)
unfolding put_ue put_long
put_ue-Says s c v n w d h room =
    let below : 2 ^ n ≤ 2 ^ 24 = pow-le-pow_right (omega arith) h in
    let plain : u32 (v + 1) ≡ v + 1 = omega (arith, d.high) in
    let counted = count_bits_lem n (v + 1) d (omega arith) in
    let short : ltb 24 n ≡ false = ground arith in
    let short' : ltb 24 (n - 1) ≡ false = ground arith in
    rw (plain, counted, short, short')
      (elim (dec_lt 12 n) [
        | yes long ↦
            let test : ltb 12 n ≡ true = ground arith in
            let first =
              put_bits-Says s c 0 (n - 1) w (omega arith) (one-le-pow (n - 1) 2 (omega arith))
                (omega arith) in
            rw test (
              Says-weaken refl (omega arith) (
                Says-then 6 (payload s c) (to_bits (n - 1) 0) (to_bits n (v + 1)) first (
                  put_bits-Says s (put_bits c 0 (n - 1)) (v + 1) n first.writing h d.high
                    (omega (arith, first.used, first.size_kept)))))
        | no few ↦
            let test : ltb 12 n ≡ false = ground arith in
            let wide : 2 ^ n ≤ 2 ^ (2 * n - 1) =
              pow-le-pow_right (omega arith) (omega (arith, d.some_digits)) in
            rw test (
              Says-weaken (short_code s c n v d) (omega arith) (
                put_bits-Says s c (v + 1) (2 * n - 1) w (omega arith) (omega (arith, d.high))
                  (omega arith)))
      ])

-- mpp_writer_put_ue does the same for two numbers whose successors have n digits each, with n from
-- 25 to 31, and differ in the last n - 24 digits only: those digits are lost.
pub put_ue_collision :
    (c : WriteCtx) (v w n : ℕ)
    → HasWidth n (v + 1)
    → HasWidth n (w + 1)
    → 24 < n
    → n < 32
    → (v + 1) / 2 ^ (n - 24) ≡ (w + 1) / 2 ^ (n - 24)
    → put_ue c v ≡ put_ue c w
unfolding put_ue put_long
put_ue_collision c v w n dv dw h k e =
    let below : 2 ^ n ≤ 2 ^ 31 = pow-le-pow_right (omega arith) {i = n} {j = 31} (omega arith) in
    let plain_v : u32 (v + 1) ≡ v + 1 = omega (arith, dv.high) in
    let plain_w : u32 (w + 1) ≡ w + 1 = omega (arith, dw.high) in
    let long : ltb 24 n ≡ true = ground arith in
    let long' : ltb 12 n ≡ true = ground arith in
    rw (
      plain_v,
      plain_w,
      count_bits_lem n (v + 1) dv (omega arith),
      count_bits_lem n (w + 1) dw (omega arith),
      long,
      long',
      e,
    )
