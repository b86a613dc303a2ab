-- ===== src/BitWriter/Bytes.antt =====
-- What every call of the writer keeps: its memory holds bytes, and is left alone in front of the
-- section.
use rockchip_kmpp.Prelude.{
  ℕ, zero, suc, ◌+◌, ◌-◌, ◌*◌, ◌/◌, ◌^◌, ◌≤◌, ◌<◌, ◌≡◌, arith, bit_or, ltb, Bool-cases, true, inl,
  inr,
}
use rockchip_kmpp.Prelude.Word.{u32, u8}
use rockchip_kmpp.BitWriter.{
  WriteCtx, status, init, escaped_round, escaped_loop, put_bits, put_long, put_ue, count_bits,
  trailing,
}

-- A predicate that the rounds keep, and that does not look at the byte buffer or the overflow flag.
pub record IsKept (P : WriteCtx → Type 0) : Type 0 where
  pub round : (c : WriteCtx) (reg : ℕ) → P c → P (escaped_round c reg)
  pub store :
      (c : WriteCtx) (reg n : ℕ) → P c → P (record c { byte_buffer = reg; buffered_bits = n })
  pub over : (c : WriteCtx) → P c → P (record c { overflow = true })

module _ (P : WriteCtx → Type 0) (k : IsKept P) where
  loop-kept : (fuel n reg : ℕ) (c : WriteCtx) → P c → P (escaped_loop fuel c reg n)
  unfolding escaped_loop status
  loop-kept zero n reg c h = k.store c reg (u8 n) h
  loop-kept (suc fuel) n reg c h = elim (Bool-cases (ltb 7 n)) [
    | inr last ↦ rw last (k.store c reg (u8 n) h)
    | inl more ↦ rw more (elim (Bool-cases (ltb c.size c.byte_cnt)) [
      | inl full ↦ rw full (k.over c h)
      | inr room ↦
          rw room
            (loop-kept fuel (n - 8) (u32 (reg * 2 ^ 8)) (escaped_round c reg) (k.round c reg h))
    ])
  ]

  pub put_bits-kept : (c : WriteCtx) (v n : ℕ) → P c → P (put_bits c v n)
  unfolding put_bits
  put_bits-kept c v n h =
      let all = n + c.buffered_bits in
      loop-kept all all (bit_or c.byte_buffer (u32 (v * 2 ^ (32 - all)))) c h

  put_long-kept : (c : WriteCtx) (v n : ℕ) → P c → P (put_long c v n)
  unfolding put_long
  put_long-kept c v n h = elim (Bool-cases (ltb 24 n)) [
    | inl long ↦
        let high = v / 2 ^ (n - 24) in
        rw long (put_bits-kept (put_bits c high 24) high (n - 24) (put_bits-kept c high 24 h))
    | inr short ↦ rw short (put_bits-kept c v n h)
  ]

  pub put_ue-kept : (c : WriteCtx) (v : ℕ) → P c → P (put_ue c v)
  unfolding put_ue
  put_ue-kept c v h =
      let val = u32 (v + 1) in
      let n = count_bits 32 val 0 in
      elim (Bool-cases (ltb 12 n)) [
        | inr short ↦ rw short (put_bits-kept c val (2 * n - 1) h)
        | inl long ↦ rw long (elim (Bool-cases (ltb 24 (n - 1))) [
          | inl wide ↦ rw wide (
              put_long-kept (put_bits (put_bits c 0 24) 0 (n - 1 - 24)) val n
                (put_bits-kept (put_bits c 0 24) 0 (n - 1 - 24) (put_bits-kept c 0 24 h)))
          | inr narrow ↦
              rw narrow (put_long-kept (put_bits c 0 (n - 1)) val n (put_bits-kept c 0 (n - 1) h))
        ])
      ]

  pub trailing-kept : (c : WriteCtx) → P c → P (trailing c)
  unfolding trailing
  trailing-kept c h =
      let c' = put_bits c 1 1 in
      elim (Bool-cases (ltb 0 c'.buffered_bits)) [
        | inl some_left ↦
            rw some_left (put_bits-kept c' 0 (8 - c'.buffered_bits) (put_bits-kept c 1 1 h))
        | inr done ↦ rw done (put_bits-kept c 1 1 h)
      ]

abbrev pub IsBytes : WriteCtx → Type 0
IsBytes c = (i : ℕ) → c.mem i < 2 ^ 8

round-IsBytes : (c : WriteCtx) (reg : ℕ) → IsBytes c → IsBytes (escaped_round c reg)
unfolding escaped_round
round-IsBytes c reg h i = ground (arith, h i)

pub IsBytes-kept : IsKept IsBytes
IsBytes-kept = record { round = round-IsBytes; store = λ c reg n h i. h i; over = λ c h i. h i }

-- The memory below the address `s` is that of `m`.
abbrev pub Below : (ℕ → ℕ) → ℕ → WriteCtx → Type 0
Below m s c = (s ≤ c.stream) × ((i : ℕ) → i < s → c.mem i ≡ m i)

round-Below :
    (m : ℕ → ℕ) (s : ℕ) (c : WriteCtx) (reg : ℕ) → Below m s c → Below m s (escaped_round c reg)
unfolding escaped_round
round-Below m s c reg h = (ground arith, λ i lt. ground (arith, h.1 i lt))

pub Below-kept : (m : ℕ → ℕ) (s : ℕ) → IsKept (Below m s)
Below-kept m s = record { round = round-Below m s; store = λ c reg n h. h; over = λ c h. h }

pub init-IsBytes :
    (p : ℕ → ℕ) (size : ℕ)
    → ((i : ℕ) → p i < 2 ^ 8)
    → size < 2 ^ 31
    → ((init p size).1.size ≡ size) × ((init p size).1.byte_cnt ≡ 0) × IsBytes (init p size).1
unfolding init status
init-IsBytes p size h small = (ground arith, ground arith, λ i. ground (arith, h i))
