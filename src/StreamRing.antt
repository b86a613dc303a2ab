-- ===== src/StreamRing.antt =====
-- vcodec/mpp/base/mpp_stream_ring_buf.c: the ring of stream memory that an encoder's output goes
-- through. A null argument, which every function refuses first, is left out, as are the messages
-- about positions: they change nothing.
pub mod Place
pub mod Queue
pub mod Tests
use rockchip_kmpp.Prelude.{
  ℕ, ◌+◌, ◌-◌, ◌*◌, ◌%◌, ◌^◌, Bool, true, false, not, ◌||◌, ltb, leb, ◌==◌, if◌then◌else◌, bit_and,
}
use rockchip_kmpp.Prelude.Int.{ℤ}
use rockchip_kmpp.Prelude.Word.{u32}
use rockchip_kmpp.Prelude.Ret.{Ret, ok, nok}

-- An MppBuffer: its address, and what mpp_buffer_get_size, mpp_buffer_get_ptr and
-- mpp_buffer_get_mpi_buf_id return for it.
pub record Buffer : Type 0 where
  pub handle : ℕ
  pub size : ℕ
  pub ptr : ℕ
  pub mpi_buf_id : ℤ

-- ring_buf
pub record RingBuf : Type 0 where
  pub buf : ℕ
  pub mpi_buf_id : ℤ
  pub buf_start : ℕ
  pub start_offset : ℕ
  pub r_pos : ℕ
  pub use_len : ℕ
  pub size : ℕ
  pub cir_flag : ℕ

-- ring_buf_pool
pub record RingBufPool : Type 0 where
  pub r_pos : ℕ
  pub w_pos : ℕ
  pub len : ℕ
  pub use_len : ℕ
  pub buf_base : ℕ
  pub buf : ℕ
  pub mpi_buf_id : ℤ
  pub init_done : Bool
  pub min_buf_size : ℕ
  pub l_r_pos : ℕ
  pub l_w_pos : ℕ

-- `a - b` on 32-bit words.
abbrev pub sub_u32 : ℕ → ℕ → ℕ
sub_u32 a b = u32 (a + 2 ^ 32 - b)

-- ring_buf_init: the last two positions keep what they were.
unfoldable pub ring_buf_init : RingBufPool → Buffer → Ret × RingBufPool
ring_buf_init ctx buf = if ctx.init_done then (nok, ctx) else (
  ok,
  record ctx {
    w_pos = 0;
    r_pos = 0;
    len = u32 buf.size;
    use_len = 0;
    buf_base = buf.ptr;
    buf = buf.handle;
    mpi_buf_id = buf.mpi_buf_id;
    init_done = true;
    min_buf_size = 10 * 1024;
  },
)

-- ring_buf_get_use_size
unfoldable pub ring_buf_get_use_size : RingBufPool → ℕ
ring_buf_get_use_size ctx =
    if ltb ctx.w_pos ctx.r_pos
    then sub_u32 (u32 (ctx.len + ctx.w_pos)) ctx.r_pos
    else sub_u32 ctx.w_pos ctx.r_pos

-- Where the used part of a buffer ends. The remainder by the length of a ring of 0 bytes, which C
-- leaves undefined, is not told as a fault: the theorems are about rings with some bytes.
abbrev pub end_pos : RingBufPool → RingBuf → ℕ
end_pos ctx buf = u32 (buf.start_offset + buf.use_len) % ctx.len

abbrev pub refuses : RingBufPool → RingBuf → Bool
refuses ctx buf = not (ctx.buf == buf.buf) || (buf.use_len == 0)

-- ring_buf_put_use
unfoldable pub ring_buf_put_use : RingBufPool → RingBuf → Ret × RingBufPool
ring_buf_put_use ctx buf =
    let end = end_pos ctx buf in
    let use_len =
      if ltb end ctx.r_pos
      then sub_u32 (u32 (ctx.len + end)) ctx.r_pos
      else sub_u32 end ctx.r_pos in
    if refuses ctx buf then (nok, ctx) else (
      ok,
      record ctx {
        w_pos = end;
        l_w_pos = end;
        use_len = if ltb ctx.use_len use_len then use_len else ctx.use_len;
      },
    )

-- ring_buf_put_free
unfoldable pub ring_buf_put_free : RingBufPool → RingBuf → Ret × RingBufPool
ring_buf_put_free ctx buf =
    let end = end_pos ctx buf in
    if refuses ctx buf then (nok, ctx) else (ok, record ctx { r_pos = end; l_r_pos = end })

-- The bytes up to the next aligned position.
abbrev pub align_offset : ℕ → ℕ → ℕ
align_offset w_pos align =
    let low = bit_and w_pos (sub_u32 align 1) in if low == 0 then 0 else sub_u32 align low

-- `max(min_size, ctx->min_buf_size)`
abbrev pub wanted : RingBufPool → ℕ → ℕ
wanted ctx min_size = if ltb min_size ctx.min_buf_size then ctx.min_buf_size else min_size

-- ring_buf_get_free. The count of streams is not used.
unfoldable pub ring_buf_get_free : RingBufPool → RingBuf → ℕ → ℕ → Ret × RingBuf
ring_buf_get_free ctx buf align min_size =
    let offset = align_offset ctx.w_pos align in
    let size = wanted ctx min_size in
    let marked = record buf { mpi_buf_id = ctx.mpi_buf_id; cir_flag = 1 } in
    let align_w_pos = u32 (ctx.w_pos + offset) in
    let placed = record marked {
      start_offset = align_w_pos;
      buf_start = ctx.buf_base + align_w_pos;
      r_pos = bit_and ctx.r_pos (2 ^ 32 - 1 - sub_u32 align 1);
      buf = ctx.buf;
    } in
    if ltb ctx.w_pos ctx.r_pos
    then (if leb ctx.r_pos (u32 (size + ctx.w_pos + offset))
        then (nok, marked)
        else (ok, record placed { size = sub_u32 (sub_u32 ctx.r_pos ctx.w_pos) offset }))
    else if ltb size (sub_u32 ctx.len (sub_u32 align_w_pos ctx.r_pos))
    then (ok, record placed { size = u32 (sub_u32 ctx.len align_w_pos + ctx.r_pos) })
    else (nok, marked)
