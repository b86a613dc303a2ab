-- ===== src/BitWriter.antt =====
-- vcodec/mpp/base/mpp_bitwrite.c: the bit writer of the H.264 and H.265 headers.
-- The buffer is the memory that `stream` points into; addresses count from the buffer's start.
pub mod Step
pub mod Escape
pub mod Payload
pub mod Put
pub mod Golomb
pub mod Align
pub mod Bytes
pub mod Raw
pub mod Signed
mod Tests
use rockchip_kmpp.Prelude.{
  ℕ, zero, suc, ◌+◌, ◌-◌, ◌*◌, ◌/◌, ◌^◌, bit_or, Bool, true, false, ◌&&◌, ltb, ◌==◌, if◌then◌else◌,
}
use rockchip_kmpp.Prelude.Word.{u8, u32, update}
use rockchip_kmpp.Prelude.Ret.{Ret, ok, nok, is_err}
use rockchip_kmpp.Prelude.Int.{ℤ, pos, negsuc}

-- MppWriteCtx. `mem` is what lies behind `buffer`, `stream` the offset of the next byte.
pub record WriteCtx : Type 0 where
  pub mem : ℕ → ℕ
  pub stream : ℕ
  pub size : ℕ
  pub byte_cnt : ℕ
  pub byte_buffer : ℕ
  pub buffered_bits : ℕ
  pub zero_bytes : ℕ
  pub overflow : Bool
  pub emul_cnt : ℕ

-- mpp_writer_status: the count may exceed the size by what one call writes.
pub status : WriteCtx → Ret × WriteCtx
status c = if ltb c.size c.byte_cnt then (nok, record c { overflow = true }) else (ok, c)

pub reset : WriteCtx → Ret × WriteCtx
reset c = (
  ok,
  record c {
    stream = 0;
    byte_cnt = 0;
    byte_buffer = 0;
    buffered_bits = 0;
    zero_bytes = 0;
    overflow = false;
    emul_cnt = 0;
  },
)

-- The size is stored in an unsigned field.
pub init : (ℕ → ℕ) → ℕ → Ret × WriteCtx
init p size = status fresh
  where
    fresh : WriteCtx
    fresh = record {
      mem = p;
      stream = 0;
      size = u32 size;
      byte_cnt = 0;
      byte_buffer = 0;
      buffered_bits = 0;
      zero_bytes = 0;
      overflow = false;
      emul_cnt = 0;
    }

-- The top byte of the byte buffer.
abbrev pub top_byte : ℕ → ℕ
top_byte byte_buffer = u8 (byte_buffer / 2 ^ 24)

-- One round of the loop of mpp_writer_put_raw_bits: the top byte goes to memory as it is.
pub raw_round : WriteCtx → ℕ → WriteCtx
raw_round c byte_buffer = record c {
  mem = update c.mem c.stream (top_byte byte_buffer);
  stream = c.stream + 1;
  byte_cnt = u32 (c.byte_cnt + 1);
}

-- The loop, on fuel, and the stores behind it.
pub raw_loop : ℕ → WriteCtx → ℕ → ℕ → WriteCtx
raw_loop zero c byte_buffer bits = record c { byte_buffer = byte_buffer; buffered_bits = u8 bits }
raw_loop (suc fuel) c byte_buffer bits =
    let next = raw_loop fuel (raw_round c byte_buffer) (u32 (byte_buffer * 2 ^ 8)) (bits - 8) in
    if ltb 7 bits then next else record c { byte_buffer = byte_buffer; buffered_bits = u8 bits }

-- mpp_writer_put_raw_bits. The assertions on `val` and `len` only log.
pub put_raw_bits : WriteCtx → ℕ → ℕ → WriteCtx
put_raw_bits c val len =
    let bits = len + c.buffered_bits in
    let byte_buffer = bit_or c.byte_buffer (u32 (val * 2 ^ (32 - bits))) in
    let (ret, c') = status c in if is_err ret then c' else raw_loop bits c' byte_buffer bits

-- mpp_writer_flush: the last partial byte goes to memory, and stays pending.
pub flush : WriteCtx → WriteCtx
flush c =
    let (ret, c') = status c in
    let flushed = record c' { mem = update c'.mem c'.stream (top_byte c'.byte_buffer) } in
    if is_err ret then c' else if ltb 0 c'.buffered_bits then flushed else c'

-- One round of the loop of mpp_writer_put_bits, its check of the status passed: the top byte goes
-- to memory, behind a byte 3 if it is below 4 and two zero bytes stand before it.
pub escaped_round : WriteCtx → ℕ → WriteCtx
escaped_round c byte_buffer =
    let b = top_byte byte_buffer in
    let zeros : ℕ → ℕ = λ n. if b == 0 then u32 (n + 1) else 0 in
    if (c.zero_bytes == 2) && ltb b 4
    then record c {
      mem = update (update c.mem c.stream 3) (c.stream + 1) b;
      stream = c.stream + 2;
      byte_cnt = u32 (c.byte_cnt + 2);
      zero_bytes = zeros 0;
      emul_cnt = u32 (c.emul_cnt + 1);
    }
    else record c {
      mem = update c.mem c.stream b;
      stream = c.stream + 1;
      byte_cnt = u32 (c.byte_cnt + 1);
      zero_bytes = zeros c.zero_bytes;
    }

-- The loop, on fuel. A failed check returns with the byte buffer not stored.
pub escaped_loop : ℕ → WriteCtx → ℕ → ℕ → WriteCtx
escaped_loop zero c byte_buffer bits = record c {
  byte_buffer = byte_buffer;
  buffered_bits = u8 bits;
}
escaped_loop (suc fuel) c byte_buffer bits =
    let next =
      escaped_loop fuel (escaped_round c byte_buffer) (u32 (byte_buffer * 2 ^ 8)) (bits - 8) in
    let (ret, c') = status c in
    if ltb 7 bits
    then (if is_err ret then c' else next)
    else record c { byte_buffer = byte_buffer; buffered_bits = u8 bits }

-- mpp_writer_put_bits
pub put_bits : WriteCtx → ℕ → ℕ → WriteCtx
put_bits c val len =
    let bits = len + c.buffered_bits in
    escaped_loop bits c (bit_or c.byte_buffer (u32 (val * 2 ^ (32 - bits)))) bits

pub align_zero : WriteCtx → WriteCtx
align_zero c = if ltb 0 c.buffered_bits then put_raw_bits c 0 (8 - c.buffered_bits) else c

pub align_one : WriteCtx → WriteCtx
align_one c =
    let len = 8 - c.buffered_bits in
    if ltb 0 c.buffered_bits then put_raw_bits c (2 ^ len - 1) len else c

pub trailing : WriteCtx → WriteCtx
trailing c =
    let c' = put_bits c 1 1 in
    if ltb 0 c'.buffered_bits then put_bits c' 0 (8 - c'.buffered_bits) else c'

-- `while (val >> ++num_bits);` on fuel, from `num_bits` on. The shift is of a 32-bit value, so the
-- count ends at 32 at most.
pub count_bits : ℕ → ℕ → ℕ → ℕ
count_bits zero val num_bits = num_bits
count_bits (suc fuel) val num_bits =
    let more = count_bits fuel val (num_bits + 1) in
    if val / 2 ^ (num_bits + 1) == 0 then num_bits + 1 else more

-- The code word of more than 12 bits, behind its zeros. Above 24 bits the second part is what the
-- first part was.
pub put_long : WriteCtx → ℕ → ℕ → WriteCtx
put_long c val num_bits =
    if ltb 24 num_bits
    then (let n = num_bits - 24 in let high = val / 2 ^ n in put_bits (put_bits c high 24) high n)
    else put_bits c val num_bits

pub put_ue : WriteCtx → ℕ → WriteCtx
put_ue c v =
    let val = u32 (v + 1) in
    let num_bits = count_bits 32 val 0 in
    let tmp = num_bits - 1 in
    if ltb 12 num_bits
    then (if ltb 24 tmp
        then put_long (put_bits (put_bits c 0 24) 0 (tmp - 24)) val num_bits
        else put_long (put_bits c 0 tmp) val num_bits)
    else put_bits c val (2 * num_bits - 1)

-- The signed value as the code number: 2 * val - 1 above zero, -2 * val else.
pub put_se : WriteCtx → ℤ → WriteCtx
put_se c (pos zero) = put_ue c 0
put_se c (pos (suc n)) = put_ue c (u32 (2 * suc n - 1))
put_se c (negsuc n) = put_ue c (u32 (2 * (n + 1)))

unfoldable pub bytes : WriteCtx → ℕ
bytes c = c.byte_cnt + (if ltb 0 c.buffered_bits then 1 else 0)

pub bits : WriteCtx → ℕ
bits c = c.byte_cnt * 8 + c.buffered_bits

-- mpp_exp_golomb_signed: the length of the code word of a signed value.
pub exp_golomb_signed : ℤ → ℕ
exp_golomb_signed (pos zero) = count_bits 32 1 0 * 2 - 1
exp_golomb_signed (pos (suc n)) = count_bits 32 (2 * suc n) 0 * 2 - 1
exp_golomb_signed (negsuc n) = count_bits 32 (2 * (n + 1) + 1) 0 * 2 - 1
