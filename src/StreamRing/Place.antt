-- ===== src/StreamRing/Place.antt =====
-- Where ring_buf_get_free places a buffer.
use native.Mathlib.Nat.{
  mod-lt, one-le-pow, pow-le-pow_right, add-mod_right, mul-mod_right, mul-suc, mul-le-mul_left,
  div-add-mod,
}
use rockchip_kmpp.Prelude.{
  ℕ, ◌+◌, ◌-◌, ◌*◌, ◌/◌, ◌%◌, ◌^◌, ◌≤◌, ◌<◌, ◌≡◌, ap, ◌∙◌, arith, Bool, true, false, ltb, ◌==◌,
  if◌then◌else◌, Bool-cases, inl, inr,
}
use rockchip_kmpp.Prelude.Bits.{and-mask}
use rockchip_kmpp.Prelude.Ret.{ok, nok}
use rockchip_kmpp.StreamRing.{
  RingBufPool, RingBuf, sub_u32, align_offset, ring_buf_get_free, ring_buf_get_use_size, wanted,
}

-- A ring whose positions lie in it, of less than 2 GiB.
pub record InRing (ctx : RingBufPool) : Type 0 where
  pub len_le : ctx.len ≤ 2 ^ 31
  pub r_lt : ctx.r_pos < ctx.len
  pub w_lt : ctx.w_pos < ctx.len

-- The bytes from one position of the ring to another.
abbrev pub distance : ℕ → ℕ → ℕ → ℕ
distance len a b = if ltb b a then len + b - a else b - a

pub use_size-distance :
    (ctx : RingBufPool)
    → InRing ctx
    → ring_buf_get_use_size ctx ≡ distance ctx.len ctx.r_pos ctx.w_pos
unfolding ring_buf_get_use_size
use_size-distance ctx v = ground (arith, v.len_le, v.r_lt, v.w_lt)

-- The gap up to the next multiple of a power of two.
unfoldable pub gap : ℕ → ℕ → ℕ
gap k w = if w % 2 ^ k == 0 then 0 else 2 ^ k - w % 2 ^ k

pow-pos : (k : ℕ) → 0 < 2 ^ k
pow-pos k = one-le-pow k 2 (omega arith)

pow-small : (k : ℕ) → k ≤ 20 → 2 ^ k ≤ 2 ^ 20
pow-small k h = pow-le-pow_right (omega arith) {i = k} {j = 20} h

align_offset-gap : (k w : ℕ) → k ≤ 20 → align_offset w (2 ^ k) ≡ gap k w
unfolding gap
align_offset-gap k w h =
    rw (mask, and-mask k w) (by_rest (w % 2 ^ k) (mod-lt w {m = 2 ^ k} (pow-pos k)))
  where
    mask : sub_u32 (2 ^ k) 1 ≡ 2 ^ k - 1
    mask = omega (arith, pow-small k h, pow-pos k)

    by_rest :
        (m : ℕ)
        → m < 2 ^ k
        → (if m == 0 then 0 else sub_u32 (2 ^ k) m) ≡ (if m == 0 then 0 else 2 ^ k - m)
    by_rest m l = ground (arith, pow-small k h)

pub gap-lt : (k w : ℕ) → gap k w < 2 ^ k
unfolding gap
gap-lt k w = ground (arith, pow-pos k, mod-lt w {m = 2 ^ k} (pow-pos k))

-- A position behind its gap is aligned.
pub gap-aligned : (k w : ℕ) → (w + gap k w) % 2 ^ k ≡ 0
unfolding gap
gap-aligned k w = elim (Bool-cases (w % 2 ^ k == 0)) [
  | inl e ↦ rw e (ground arith)
  | inr e ↦ rw e (
      ap (λ n. n % 2 ^ k) next
      ∙ add-mod_right (2 ^ k * (w / 2 ^ k)) (2 ^ k)
      ∙ mul-mod_right (2 ^ k) (w / 2 ^ k))
]
  where
    next : w + (2 ^ k - w % 2 ^ k) ≡ 2 ^ k * (w / 2 ^ k) + 2 ^ k
    next = omega (arith, div-add-mod w (2 ^ k), mod-lt w {m = 2 ^ k} (pow-pos k))

-- What a placed buffer is: aligned, behind the written part, and within the free part of the ring.
pub record Placed (ctx : RingBufPool) (k min_size : ℕ) (b : RingBuf) : Type 0 where
  pub of_pool : b.buf ≡ ctx.buf
  pub start : b.start_offset ≡ ctx.w_pos + gap k ctx.w_pos
  pub fills : distance ctx.len ctx.r_pos ctx.w_pos + gap k ctx.w_pos + b.size ≡ ctx.len
  pub enough : min_size < b.size
  pub kept_free : ctx.min_buf_size < b.size

-- The bytes that a placed buffer starts behind, and the free ones behind it, as the code's two
-- tests see them.
abbrev pub fits : RingBufPool → ℕ → ℕ → Bool
fits ctx k min_size =
    ltb (distance ctx.len ctx.r_pos ctx.w_pos + gap k ctx.w_pos + wanted ctx min_size) ctx.len

-- A ring of aligned size, and requests of less than 1 GiB.
pub record Request (ctx : RingBufPool) (k min_size : ℕ) : Type 0 where
  pub in_ring : InRing ctx
  pub align_le : k ≤ 20
  pub aligned : ctx.len % 2 ^ k ≡ 0
  pub min_size_le : min_size ≤ 2 ^ 30
  pub min_buf_size_le : ctx.min_buf_size ≤ 2 ^ 30

gap-le : (k w len : ℕ) → len % 2 ^ k ≡ 0 → w < len → w + gap k w ≤ len
unfolding gap
gap-le k w len e h = elim (Bool-cases (ltb (w / 2 ^ k) (len / 2 ^ k))) [
  | inl lt ↦
      let next = mul-le-mul_left {m = w / 2 ^ k + 1} {n = len / 2 ^ k} (2 ^ k) (ground arith) in
      ground (
        arith,
        div-add-mod w (2 ^ k),
        div-add-mod len (2 ^ k),
        mul-suc (2 ^ k) (w / 2 ^ k),
        mod-lt w {m = 2 ^ k} (pow-pos k),
      )
  | inr ge ↦
      let before = mul-le-mul_left {m = len / 2 ^ k} {n = w / 2 ^ k} (2 ^ k) (ground arith) in
      absurd (omega (arith, div-add-mod w (2 ^ k), div-add-mod len (2 ^ k)))
]

module _ (ctx : RingBufPool) (buf : RingBuf) (k min_size : ℕ) (q : Request ctx k min_size) where
  get_free-fits :
      fits ctx k min_size ≡ true
      → ((ring_buf_get_free ctx buf (2 ^ k) min_size).0 ≡ ok)
        × Placed ctx k min_size (ring_buf_get_free ctx buf (2 ^ k) min_size).1
  unfolding ring_buf_get_free
  get_free-fits e =
      let v = q.in_ring in
      let g = gap k ctx.w_pos in
      let in_len = gap-le k ctx.w_pos ctx.len q.aligned v.w_lt in
      let gap_small = gap-lt k ctx.w_pos in
      let p = pow-small k q.align_le in
      rw (align_offset-gap k ctx.w_pos q.align_le) (elim (Bool-cases (ltb ctx.w_pos ctx.r_pos)) [
        | inl wrapped ↦ (
          ground arith,
          record {
            of_pool = ground arith;
            start = ground arith;
            fills = ground arith;
            enough = ground arith;
            kept_free = ground arith;
          },
        )
        | inr plain ↦ (
          ground arith,
          record {
            of_pool = ground arith;
            start = ground arith;
            fills = ground arith;
            enough = ground arith;
            kept_free = ground arith;
          },
        )
      ])

  get_free-refuses :
      fits ctx k min_size ≡ false → (ring_buf_get_free ctx buf (2 ^ k) min_size).0 ≡ nok
  unfolding ring_buf_get_free
  get_free-refuses e =
      let v = q.in_ring in
      let g = gap k ctx.w_pos in
      let in_len = gap-le k ctx.w_pos ctx.len q.aligned v.w_lt in
      let gap_small = gap-lt k ctx.w_pos in
      let p = pow-small k q.align_le in
      rw (align_offset-gap k ctx.w_pos q.align_le) (elim (Bool-cases (ltb ctx.w_pos ctx.r_pos)) [
        | inl wrapped ↦ ground arith
        | inr plain ↦ ground arith
      ])

  -- On a ring whose size is a multiple of the alignment 2 ^ k, with k up to 20, whose positions lie
  -- in it, and for requests up to 1 GiB, ring_buf_get_free succeeds exactly if the free bytes
  -- behind the next aligned position are more than the request and the pool's minimum; and then the
  -- buffer starts there, is aligned, and is all of the ring's free part behind it.
  pub get_free-Placed :
      ((ring_buf_get_free ctx buf (2 ^ k) min_size).0 ≡ (if fits ctx k min_size then ok else nok))
      × (fits ctx k min_size ≡ true
          → Placed ctx k min_size (ring_buf_get_free ctx buf (2 ^ k) min_size).1
            × ((ring_buf_get_free ctx buf (2 ^ k) min_size).1.start_offset % 2 ^ k ≡ 0))
  get_free-Placed = (
    elim (Bool-cases (fits ctx k min_size)) [
      | inl e ↦ rw e (get_free-fits e).0
      | inr e ↦ rw e (get_free-refuses e)
    ],
    λ e.
        let placed = (get_free-fits e).1 in
        (placed, ap (λ n. n % 2 ^ k) placed.start ∙ gap-aligned k ctx.w_pos),
  )

-- On a ring of up to 2 GiB whose write position is not before its read position, and whose next
-- aligned position (to 2 ^ k, with k up to 20) lies behind the end by more bytes than the read
-- position, ring_buf_get_free of up to 1 GiB succeeds, however full the ring is, and gives a size
-- of more than 3 GiB.
pub get_free-underflow :
    (ctx : RingBufPool) (buf : RingBuf) (k min_size : ℕ)
    → InRing ctx
    → k ≤ 20
    → ctx.r_pos ≤ ctx.w_pos
    → ctx.len + ctx.r_pos < ctx.w_pos + gap k ctx.w_pos
    → min_size ≤ 2 ^ 30
    → ctx.min_buf_size ≤ 2 ^ 30
    → let r = ring_buf_get_free ctx buf (2 ^ k) min_size in (r.0 ≡ ok) × (3 * 2 ^ 30 < r.1.size)
unfolding ring_buf_get_free
get_free-underflow ctx buf k min_size v h le over s s' =
    let gap_small = gap-lt k ctx.w_pos in
    let p = pow-small k h in
    rw (align_offset-gap k ctx.w_pos h) (ground (arith, v.len_le), ground (arith, v.len_le))
