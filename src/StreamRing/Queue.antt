-- ===== src/StreamRing/Queue.antt =====
-- The ring as a queue of bytes: ring_buf_put_use appends to it, ring_buf_put_free takes from its
-- front, and ring_buf_get_use_size is its length.
use native.Mathlib.Nat.{mod-lt, mod-eq_of_lt, mod-eq-sub-mod}
use rockchip_kmpp.Prelude.{
  ℕ, ◌+◌, ◌-◌, ◌%◌, ◌^◌, ◌≤◌, ◌<◌, ◌≡◌, refl, ap, ◌∙◌, sym, arith, true, false, ◌==◌, ltb,
  if◌then◌else◌, List, [], ◌∷◌, ◌++◌, Bool-cases, inl, inr,
}
use rockchip_kmpp.Prelude.Word.{u32}
use rockchip_kmpp.Prelude.Ret.{ok}
use rockchip_kmpp.StreamRing.{
  RingBufPool, RingBuf, Buffer, ring_buf_init, ring_buf_put_use, ring_buf_put_free,
  ring_buf_get_use_size,
}
use rockchip_kmpp.StreamRing.Place.{InRing, distance, gap, use_size-distance, Placed}

-- A stretch of the ring: where it begins, and how many bytes it has. It may go round the end.
pub record Segment : Type 0 where
  pub start : ℕ
  pub size : ℕ

-- The bytes of the queue's segments: each a gap with the stream behind it.
abbrev pub total : List Segment → ℕ
total [] = 0
total (s ∷ q) = s.size + total q

-- The position `n` bytes behind `p` on a ring of `len` bytes.
abbrev pub forward : ℕ → ℕ → ℕ → ℕ
forward len p n = if ltb (p + n) len then p + n else p + n - len

-- The segments lie one behind the other, the first at `from`, and end at `to`.
abbrev pub Chain : ℕ → ℕ → List Segment → ℕ → Type 0
Chain len from [] to = from ≡ to
Chain len from (s ∷ q) to = (s.start ≡ from) × Chain len (forward len from s.size) q to

-- The segments of the queue fill the ring from its read position to its write position, in their
-- order, and leave a byte free.
pub record Holds (ctx : RingBufPool) (q : List Segment) : Type 0 where
  pub in_ring : InRing ctx
  pub chain : Chain ctx.len ctx.r_pos q ctx.w_pos
  pub used : distance ctx.len ctx.r_pos ctx.w_pos ≡ total q

total-append : (q : List Segment) (s : Segment) → total (q ++ (s ∷ [])) ≡ total q + s.size
total-append [] s = omega arith
total-append (t ∷ q) s = omega (arith, total-append q s)

Chain-append :
    (len from to n : ℕ) (q : List Segment)
    → Chain len from q to
    → Chain len from (q ++ (record { start = to; size = n } ∷ [])) (forward len to n)
Chain-append len from to n [] e = (sym e, ap (λ p. forward len p n) e)
Chain-append len from to n (s ∷ q) (e, c) = (e, Chain-append len (forward len from s.size) to n q c)

-- A remainder of a number below twice the divisor.
wrap-mod : (a m : ℕ) → a < m + m → a % m ≡ (if ltb a m then a else a - m)
wrap-mod a m h = elim (Bool-cases (ltb a m)) [
  | inl e ↦ rw e (mod-eq_of_lt {n = a} {m = m} (ground arith))
  | inr e ↦ rw e (
      mod-eq-sub-mod {n = a} {m = m} (ground arith)
      ∙ mod-eq_of_lt {n = a - m} {m = m} (omega arith))
]

-- Where a placed buffer ends, with `n` bytes of it used.
module _ (ctx : RingBufPool) (k min_size n : ℕ) (b : RingBuf) (v : InRing ctx)
    (p : Placed ctx k min_size b) (room : n < b.size) where
  placed-lt : b.start_offset + n < ctx.len + ctx.len
  placed-lt = ground (arith, p.start, p.fills, v.r_lt, v.w_lt)

  placed_end : u32 (b.start_offset + n) % ctx.len ≡ (
      if ltb (b.start_offset + n) ctx.len then b.start_offset + n else b.start_offset + n - ctx.len)
  placed_end =
      ap (λ a. a % ctx.len)
        (mod-eq_of_lt {n = b.start_offset + n} {m = 2 ^ 32} (omega (arith, placed-lt, v.len_le)))
      ∙ wrap-mod (b.start_offset + n) ctx.len placed-lt

-- On a ring of up to 2 GiB whose used part is a queue of segments, a buffer that ring_buf_get_free
-- has placed joins the end of the queue by ring_buf_put_use if it uses some bytes but not all of
-- its size: the new last segment begins at the old write position and has the gap before the buffer
-- and the used bytes, every other segment stays where it is, and the ring keeps its length.
pub put_use-Holds :
    (ctx : RingBufPool) (k min_size n : ℕ) (b : RingBuf) (q : List Segment)
    → Holds ctx q
    → Placed ctx k min_size b
    → 0 < n
    → n < b.size
    → let after = ring_buf_put_use ctx (record b { use_len = n }) in
      (after.0 ≡ ok)
      × (after.1.len ≡ ctx.len)
      × Holds after.1 (q ++ (record { start = ctx.w_pos; size = gap k ctx.w_pos + n } ∷ []))
unfolding ring_buf_put_use
put_use-Holds ctx k min_size n b q v p pos_n room =
    let r = v.in_ring in
    let stop = placed_end ctx k min_size n b r p room in
    let lt = placed-lt ctx k min_size n b r p room in
    let m = gap k ctx.w_pos + n in
    let at : b.start_offset + n ≡ ctx.w_pos + m = omega (arith, p.start) in
    let going : ((ctx.buf == b.buf) ≡ true) × ((n == 0) ≡ false) = ground (arith, p.of_pool) in
    let linked = Chain-append ctx.len ctx.r_pos ctx.w_pos m q v.chain in
    let end : u32 (b.start_offset + n) % ctx.len ≡ forward ctx.len ctx.w_pos m =
      stop ∙ ap (λ t. if ltb t ctx.len then t else t - ctx.len) at in
    rw (going.0, going.1)
      (
        refl,
        refl,
        record {
          in_ring = record {
            len_le = r.len_le;
            r_lt = r.r_lt;
            w_lt = ground (arith, stop, r.r_lt, r.w_lt, lt);
          };
          chain = rw end linked;
          used = ground (
            arith,
            p.of_pool,
            p.start,
            p.fills,
            v.used,
            r.r_lt,
            r.w_lt,
            total-append q (record { start = ctx.w_pos; size = m }),
          );
        },
      )

-- On a ring of up to 2 GiB whose used part is a queue of segments, ring_buf_put_free of a buffer
-- of the ring that uses some bytes and ends where the front segment ends takes that segment from
-- the queue: the segments behind it stay where they are, and the ring keeps its length.
pub put_free-Holds :
    (ctx : RingBufPool) (b : RingBuf) (s : Segment) (q : List Segment)
    → Holds ctx (s ∷ q)
    → b.buf ≡ ctx.buf
    → 0 < b.use_len
    → b.start_offset + b.use_len ≡ s.start + s.size
    → let after = ring_buf_put_free ctx b in
      (after.0 ≡ ok) × (after.1.len ≡ ctx.len) × Holds after.1 q
unfolding ring_buf_put_free
put_free-Holds ctx b s q v mine some_use front =
    let r = v.in_ring in
    let going : ((ctx.buf == b.buf) ≡ true) × ((b.use_len == 0) ≡ false) = ground arith in
    rw (going.0, going.1)
      (
        refl,
        refl,
        record {
          in_ring = record {
            len_le = r.len_le;
            r_lt = mod-lt (u32 (b.start_offset + b.use_len)) {m = ctx.len} pos_len;
            w_lt = r.w_lt;
          };
          chain = rw stop v.chain.1;
          used = ground (arith, stop, v.used, r.r_lt, r.w_lt);
        },
      )
  where
    pos_len : 0 < ctx.len
    pos_len = ground (arith, v.in_ring.r_lt)

    stop : u32 (b.start_offset + b.use_len) % ctx.len ≡ forward ctx.len ctx.r_pos s.size
    stop =
        let short : ctx.r_pos + s.size < ctx.len + ctx.len =
          ground (arith, v.used, v.in_ring.r_lt, v.in_ring.w_lt) in
        ap (λ a. u32 a % ctx.len) (front ∙ ap (λ a. a + s.size) v.chain.0)
        ∙ ap (λ a. a % ctx.len)
            (mod-eq_of_lt {n = ctx.r_pos + s.size} {m = 2 ^ 32} (omega (arith, v.in_ring.len_le)))
        ∙ wrap-mod (ctx.r_pos + s.size) ctx.len short

-- On a ring of up to 2 GiB whose used part is a queue of segments, ring_buf_get_use_size is the
-- number of bytes in the queue.
use_size-total :
    (ctx : RingBufPool) (q : List Segment) → Holds ctx q → ring_buf_get_use_size ctx ≡ total q
use_size-total ctx q v = use_size-distance ctx v.in_ring ∙ v.used

-- ring_buf_init of a pool that is not yet set up, on a buffer of up to 2 GiB that is not empty,
-- succeeds and makes an empty queue.
init-Holds :
    (ctx : RingBufPool) (buf : Buffer)
    → ctx.init_done ≡ false
    → 0 < buf.size
    → buf.size ≤ 2 ^ 31
    → ((ring_buf_init ctx buf).0 ≡ ok) × Holds (ring_buf_init ctx buf).1 []
unfolding ring_buf_init
init-Holds ctx buf fresh pos_size small = simp fresh (
  refl,
  record {
    in_ring = record { len_le = omega arith; r_lt = omega arith; w_lt = omega arith };
    chain = refl;
    used = ground arith;
  },
)

-- On a ring of up to 2 GiB a placed buffer that uses all of its size fills the ring, and
-- ring_buf_get_use_size then says that nothing is used.
pub put_use-full :
    (ctx : RingBufPool) (k min_size : ℕ) (b : RingBuf)
    → InRing ctx
    → Placed ctx k min_size b
    → let used = record b { use_len = b.size } in
      ((ring_buf_put_use ctx used).0 ≡ ok)
      × (ring_buf_get_use_size (ring_buf_put_use ctx used).1 ≡ 0)
unfolding ring_buf_put_use ring_buf_get_use_size
put_use-full ctx k min_size b r p =
    (ground (arith, p.of_pool, p.enough), ground (arith, p.of_pool, p.enough, stop, r.r_lt, r.w_lt))
  where
    around : b.start_offset + b.size ≡ ctx.r_pos + (if ltb ctx.w_pos ctx.r_pos then 0 else ctx.len)
    around = ground (arith, p.start, p.fills, r.r_lt, r.w_lt)

    stop : u32 (b.start_offset + b.size) % ctx.len ≡ ctx.r_pos
    stop =
        let short : b.start_offset + b.size < ctx.len + ctx.len =
          ground (arith, around, r.r_lt, r.w_lt) in
        ap (λ a. a % ctx.len)
          (mod-eq_of_lt {n = b.start_offset + b.size} {m = 2 ^ 32} (omega (arith, r.len_le)))
        ∙ wrap-mod (b.start_offset + b.size) ctx.len short
        ∙ ground (arith, around, r.r_lt, r.w_lt)
