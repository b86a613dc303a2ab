-- ===== src/BitWriter/Step.antt =====
-- The arithmetic of the byte buffer: `n` pending digits of value `acc` stand at the top of 32 bits.
use native.Mathlib.Nat.{
  one-le-pow, pow-le-pow_right, mod-eq_of_lt, mod-lt, mul-div-mul_right, div-lt_iff_lt-mul,
  div-add-mod',
}
use rockchip_kmpp.Prelude.{
  ℕ, ◌+◌, ◌-◌, ◌*◌, ◌/◌, ◌%◌, ◌^◌, ◌≤◌, ◌<◌, ◌≡◌, ap, ◌∙◌, sym, bit_or, arith,
}
use rockchip_kmpp.Prelude.Word.{u32, pow_add}
use rockchip_kmpp.Prelude.Bits.{or-disjoint}
use rockchip_kmpp.BitWriter.{top_byte}

-- The byte buffer that holds `acc` in its `n` top bits.
abbrev pub packed : ℕ → ℕ → ℕ
packed n acc = acc * 2 ^ (32 - n)

or_at :
    (n e acc val : ℕ)
    → n + e ≤ 32
    → val < 2 ^ n
    → bit_or (acc * 2 ^ (n + e)) (u32 (val * 2 ^ e)) ≡ (acc * 2 ^ n + val) * 2 ^ e
or_at n e acc val h v =
    let one : 1 ≤ 2 ^ e = one-le-pow e 2 (omega arith) in
    let total : 2 ^ (n + e) ≡ 2 ^ n * 2 ^ e = pow_add n e in
    let small : val * 2 ^ e < 2 ^ n * 2 ^ e = grind arith in
    let below : 2 ^ (n + e) ≤ 2 ^ 32 = pow-le-pow_right (omega arith) h in
    let plain : u32 (val * 2 ^ e) ≡ val * 2 ^ e = mod-eq_of_lt (omega arith) in
    rw (plain, or-disjoint (n + e) acc (val * 2 ^ e) (omega arith))
      (omega (arith, ap (λ (t : ℕ). acc * t) total))

-- New digits are or'ed in behind the pending ones.
pub packed-or :
    (b n acc val : ℕ)
    → b + n ≤ 32
    → val < 2 ^ n
    → bit_or (packed b acc) (u32 (val * 2 ^ (32 - (n + b)))) ≡ packed (n + b) (acc * 2 ^ n + val)
packed-or b n acc val h v =
    let room : 32 - b ≡ n + (32 - (n + b)) = omega arith in
    rw room (or_at n (32 - (n + b)) acc val (omega arith) v)

top_at : (m e acc : ℕ) → m + e ≡ 24 → acc * 2 ^ e / 2 ^ 24 ≡ acc / 2 ^ m
top_at m e acc h =
    ap (λ (t : ℕ). acc * 2 ^ e / t) (sym (ap (λ (t : ℕ). 2 ^ t) h) ∙ pow_add m e)
    ∙ mul-div-mul_right acc (2 ^ m) (one-le-pow e 2 (omega arith))

div_pow_lt : (m acc : ℕ) → acc < 2 ^ (m + 8) → acc / 2 ^ m < 2 ^ 8
div_pow_lt m acc h =
    (div-lt_iff_lt-mul (one-le-pow m 2 (omega arith))).1 (omega (arith, pow_add m 8))

-- The byte that a round emits.
pub packed-top :
    (m acc : ℕ) → m ≤ 24 → acc < 2 ^ (m + 8) → top_byte (packed (m + 8) acc) ≡ acc / 2 ^ m
packed-top m acc h a =
    let room : 32 - (m + 8) ≡ 24 - m = omega arith in
    rw (room, top_at m (24 - m) acc (omega arith)) (mod-eq_of_lt (div_pow_lt m acc a))

shift_at :
    (m e q r : ℕ) → m + e ≡ 24 → r < 2 ^ m → u32 ((q * 2 ^ m + r) * 2 ^ e * 2 ^ 8) ≡ r * 2 ^ (e + 8)
shift_at m e q r h lt =
    let total : 2 ^ m * 2 ^ e ≡ 2 ^ 24 = sym (pow_add m e) ∙ ap (λ (t : ℕ). 2 ^ t) h in
    let tail : 2 ^ (e + 8) ≡ 2 ^ e * 2 ^ 8 = pow_add e 8 in
    let one : 1 ≤ 2 ^ e = one-le-pow e 2 (omega arith) in
    let small : r * 2 ^ e < 2 ^ m * 2 ^ e = grind arith in
    let high : q * 2 ^ m * 2 ^ e ≡ q * 2 ^ 24 = omega (arith, ap (λ (t : ℕ). q * t) total) in
    omega (arith, ap (λ (t : ℕ). r * t) tail)

-- What it leaves.
pub packed-shift :
    (m acc : ℕ)
    → m ≤ 24
    → acc < 2 ^ (m + 8)
    → u32 (packed (m + 8) acc * 2 ^ 8) ≡ packed m (acc % 2 ^ m)
packed-shift m acc h a =
    let room : 32 - (m + 8) ≡ 24 - m = omega arith in
    let rest : 32 - m ≡ 24 - m + 8 = omega arith in
    let parts : acc ≡ acc / 2 ^ m * 2 ^ m + acc % 2 ^ m = sym (div-add-mod' acc (2 ^ m)) in
    rw (room, rest)
      (ap (λ (t : ℕ). u32 (t * 2 ^ (24 - m) * 2 ^ 8)) parts
        ∙ shift_at m (24 - m) (acc / 2 ^ m) (acc % 2 ^ m) (omega arith)
            (mod-lt acc (one-le-pow m 2 (omega arith))))
