-- ===== src/BitWriter/Align.antt =====
-- How many digits stay pending, the alignment at the end of a header, and the end of the buffer.
use native.Mathlib.Decide.{dec_lt}
use native.Mathlib.Nat.{one-le-pow}
use rockchip_kmpp.Prelude.{
  ℕ, zero, suc, ◌+◌, ◌-◌, ◌*◌, ◌/◌, ◌%◌, ◌^◌, ◌≤◌, ◌<◌, ◌≡◌, refl, ap, ◌∙◌, true, false, ◌∷◌, ◌++◌,
  arith, ltb, bit_or, if◌then◌else◌, ◌==◌, ◌&&◌, Bool-cases, inl, inr,
}
use rockchip_kmpp.Prelude.Word.{u32, to_bits}
use rockchip_kmpp.BitWriter.{
  WriteCtx, top_byte, status, escaped_round, escaped_loop, put_bits, trailing,
}
use rockchip_kmpp.BitWriter.Payload.{payload, IsWriting}
use rockchip_kmpp.BitWriter.Put.{Says, put_bits-Says, Says-then, Says-weaken}

round_used :
    (c : WriteCtx) (reg : ℕ)
    → let r = escaped_round c reg in (r.byte_cnt ≤ c.byte_cnt + 2) × (r.size ≡ c.size)
unfolding escaped_round
round_used c reg = ground arith

-- With room in the buffer the loop leaves what does not fill a byte.
escaped_loop-left :
    (fuel n reg : ℕ) (c : WriteCtx)
    → n ≤ fuel
    → n ≤ 32
    → c.byte_cnt + 2 * (n / 8) ≤ c.size + 2
    → c.size < 2 ^ 31
    → (escaped_loop fuel c reg n).buffered_bits ≡ n % 8
unfolding escaped_loop status
escaped_loop-left zero n reg c f h room small = omega arith
escaped_loop-left (suc fuel) n reg c f h room small = elim (dec_lt 7 n) [
  | no few ↦ ground arith
  | yes many ↦
      let test : ltb 7 n ≡ true = ground arith in
      let quiet : ltb c.size c.byte_cnt ≡ false = ground arith in
      let u = round_used c reg in
      rw (test, quiet)
        (escaped_loop-left fuel (n - 8) (u32 (reg * 2 ^ 8)) (escaped_round c reg) (omega arith)
            (omega arith) (omega (arith, u.0, u.1)) (omega (arith, u.1))
          ∙ omega arith)
]

pub put_bits-left :
    (c : WriteCtx) (val len : ℕ)
    → len + c.buffered_bits ≤ 32
    → c.byte_cnt + 2 * ((len + c.buffered_bits) / 8) ≤ c.size + 2
    → c.size < 2 ^ 31
    → (put_bits c val len).buffered_bits ≡ (len + c.buffered_bits) % 8
unfolding put_bits
put_bits-left c val len h room small =
    let n = len + c.buffered_bits in
    escaped_loop-left n n (bit_or c.byte_buffer (u32 (val * 2 ^ (32 - n)))) c (omega arith) h room
      small

-- On a writer in order whose buffer has room for ten bytes more, mpp_writer_trailing adds a digit
-- 1 and zeros up to the end of a byte to what a reader takes from the section, and leaves no digit
-- pending.
pub trailing-Says :
    (s : ℕ) (c : WriteCtx)
    → IsWriting s c
    → c.byte_cnt + 10 ≤ c.size
    → Says s c (trailing c) (payload s c ++ (1 ∷ to_bits (7 - c.buffered_bits) 0)) (c.byte_cnt + 12)
      × ((trailing c).buffered_bits ≡ 0)
unfolding trailing to_bits
trailing-Says s c w room =
    let first = put_bits-Says s c 1 1 w (omega arith) (omega arith) (omega arith) in
    let left =
      put_bits-left c 1 1 (omega (arith, w.few)) (omega (arith, w.few)) w.memory.size_small in
    elim (dec_lt 0 (put_bits c 1 1).buffered_bits) [
      | no aligned ↦
          let test : ltb 0 (put_bits c 1 1).buffered_bits ≡ false = ground arith in
          let seven : 0 ≡ 7 - c.buffered_bits = omega (arith, w.few) in
          rw test (
            Says-weaken (ap (λ (t : ℕ). payload s c ++ (1 ∷ to_bits t 0)) seven) (omega arith)
                first,
            omega arith,
          )
      | yes more ↦
          let c' = put_bits c 1 1 in
          let len = 8 - c'.buffered_bits in
          let test : ltb 0 c'.buffered_bits ≡ true = ground arith in
          let rest : len ≡ 7 - c.buffered_bits = omega (arith, w.few) in
          let room' : c'.byte_cnt + 4 ≤ c'.size = omega (arith, first.used, first.size_kept) in
          let second =
            put_bits-Says s c' 0 len first.writing (omega arith) (one-le-pow len 2 (omega arith))
              room' in
          rw test (
            Says-weaken (ap (λ (t : ℕ). payload s c ++ (1 ∷ to_bits t 0)) rest) (omega arith)
                (Says-then 6 (payload s c) (to_bits 1 1) (to_bits len 0) first second),
            put_bits-left c' 0 len (omega arith) (omega arith) first.writing.memory.size_small
                ∙ omega (arith, first.writing.few),
          )
    ]

escaped_loop-short :
    (fuel n reg : ℕ) (c : WriteCtx)
    → n ≤ 7
    → let out = escaped_loop fuel c reg n in
      (out.stream ≡ c.stream) × (out.overflow ≡ c.overflow) × (out.mem ≡ c.mem)
unfolding escaped_loop
escaped_loop-short zero n reg c h = (refl, refl, refl)
escaped_loop-short (suc fuel) n reg c h =
    let test : ltb 7 n ≡ false = ground arith in rw test (refl, refl, refl)

-- The byte `b` lies behind the buffer of `c`, an emulation prevention byte before it if the two
-- bytes before were 0 and it is below 4, and no overflow is reported.
abbrev pub Overruns : WriteCtx → ℕ → WriteCtx → Type 0
Overruns c b out =
    (out.mem c.size ≡ (if (c.zero_bytes == 2) && ltb b 4 then 3 else b))
    × (out.mem (out.stream - 1) ≡ b)
    × (c.size < out.stream)
    × (out.overflow ≡ c.overflow)

round_overrun :
    (c : WriteCtx) (reg : ℕ) → c.stream ≡ c.size → Overruns c (top_byte reg) (escaped_round c reg)
unfolding escaped_round
round_overrun c reg e = elim (Bool-cases ((c.zero_bytes == 2) && ltb (top_byte reg) 4)) [
  | inl h ↦ rw h (ground arith, ground arith, ground arith, refl)
  | inr h ↦ rw h (ground arith, ground arith, ground arith, refl)
]

escaped_loop_overrun :
    (fuel n reg : ℕ) (c : WriteCtx)
    → c.stream ≡ c.size
    → c.byte_cnt ≡ c.size
    → 8 ≤ n
    → n < 16
    → n ≤ fuel
    → Overruns c (top_byte reg) (escaped_loop fuel c reg n)
unfolding escaped_loop status
escaped_loop_overrun zero n reg c e f lo hi h = absurd (omega arith)
escaped_loop_overrun (suc fuel) n reg c e f lo hi h =
    let test : ltb 7 n ≡ true = ground arith in
    let quiet : ltb c.size c.byte_cnt ≡ false = ground arith in
    let r = round_overrun c reg e in
    let (moved, told, stored) =
      escaped_loop-short fuel (n - 8) (u32 (reg * 2 ^ 8)) (escaped_round c reg) (omega arith) in
    rw (test, quiet) (rw (moved, told, stored) r)

-- On a writer whose buffer is full to the last byte, mpp_writer_put_bits that completes one byte
-- stores it behind the end of the buffer, an emulation prevention byte before it where the two
-- bytes before are 0 and it is below 4, and reports no overflow.
pub put_bits_overrun :
    (c : WriteCtx) (val len : ℕ)
    → c.stream ≡ c.size
    → c.byte_cnt ≡ c.size
    → 8 ≤ len + c.buffered_bits
    → len + c.buffered_bits < 16
    → Overruns c
        (top_byte (bit_or c.byte_buffer (u32 (val * 2 ^ (32 - (len + c.buffered_bits))))))
        (put_bits c val len)
unfolding put_bits
put_bits_overrun c val len e f lo hi =
    let n = len + c.buffered_bits in
    escaped_loop_overrun n n (bit_or c.byte_buffer (u32 (val * 2 ^ (32 - n)))) c e f lo hi
      (omega arith)
