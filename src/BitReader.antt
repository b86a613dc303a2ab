-- ===== src/BitReader.antt =====
-- vcodec/mpp/base/mpp_bitread.c: the bit reader of streams.
-- The buffer is the memory that `data_` points into; addresses count from the buffer's start. Signed
-- fields that the code only shifts and masks are their patterns.
pub mod Digits
pub mod Unread
pub mod Bits
pub mod Golomb
pub mod Skip
pub mod Items
pub mod Trip
mod Tests
use rockchip_kmpp.Prelude.{
  ℕ, zero, suc, ◌+◌, ◌-◌, ◌*◌, ◌/◌, ◌%◌, ◌^◌, bit_and, bit_or, Bool, true, false, not, ◌&&◌, Option,
  none, some, ltb, ◌==◌, if◌then◌else◌,
}
use rockchip_kmpp.Prelude.Word.{u32}
use rockchip_kmpp.Prelude.Maybe.{◌>>=◌}
use rockchip_kmpp.Prelude.Ret.{Ret, ok, err_read_bit, is_err}
use rockchip_kmpp.Prelude.Int.{ℤ, pos, negsuc, ◌-ℤ◌}

-- BitReadCtx_t. `mem` is what lies behind `buf`, `next` the offset of the byte at `data_`.
pub record ReadCtx : Type 0 where
  pub mem : ℕ → ℕ
  pub next : ℕ
  pub bytes_left : ℕ
  pub curr_byte : ℕ
  pub remaining : ℕ
  pub prev_two_bytes : ℕ
  pub emulation_bytes : ℕ
  pub used_bits : ℕ
  pub buf_len : ℕ
  pub detects : Bool

-- A byte 3 behind two zero bytes.
abbrev pub is_emulation : ReadCtx → Bool
is_emulation c = c.detects && ((c.mem c.next == 3) && (bit_and c.prev_two_bytes 0xffff == 0))

-- The new byte, and the pointers advanced.
pub load_byte : ReadCtx → ReadCtx
load_byte c =
    let b = bit_and (c.mem c.next) 0xff in
    record c {
      next = c.next + 1;
      bytes_left = c.bytes_left - 1;
      curr_byte = b;
      remaining = 8;
      prev_two_bytes = bit_or (c.prev_two_bytes * 2 ^ 8 % 2 ^ 64) b;
    }

-- The byte 3 is passed over.
pub skip_emulation : ReadCtx → ReadCtx
skip_emulation c = record c {
  next = c.next + 1;
  bytes_left = c.bytes_left - 1;
  prev_two_bytes = 0xffff;
  emulation_bytes = c.emulation_bytes + 1;
}

pub update_curbyte : ReadCtx → Ret × ReadCtx
update_curbyte c =
    let c' = skip_emulation c in
    if ltb c.bytes_left 1
    then (err_read_bit, c)
    else if is_emulation c
    then (if ltb c'.bytes_left 1 then (err_read_bit, c') else (ok, load_byte c'))
    else (ok, load_byte c)

-- What a read returns: its code, the context and the value behind `out`.
abbrev pub Reading : Type 0
Reading = Ret × ReadCtx × ℕ

-- The stores behind the loop of mpp_read_bits.
pub read_last : ℕ → ReadCtx → ℕ → ℕ → Reading
read_last num_bits c bits_left out = (
  ok,
  record c { remaining = c.remaining - bits_left; used_bits = u32 (c.used_bits + num_bits) },
  bit_and (u32 (bit_or out (c.curr_byte / 2 ^ (c.remaining - bits_left)))) (2 ^ num_bits - 1),
)

-- The loop, on fuel: what is left of the current byte, shifted to its place.
pub read_loop : ℕ → ℕ → ReadCtx → ℕ → ℕ → Reading
read_loop zero num_bits c bits_left out = read_last num_bits c bits_left out
read_loop (suc fuel) num_bits c bits_left out =
    let out' = u32 (bit_or out (c.curr_byte * 2 ^ (bits_left - c.remaining))) in
    let (ret, c') = update_curbyte c in
    let more = read_loop fuel num_bits c' (bits_left - c.remaining) out' in
    if ltb c.remaining bits_left
    then (if is_err ret then (err_read_bit, c', out') else more)
    else read_last num_bits c bits_left out

-- mpp_read_bits. Only the first round can take no bit, so a round more than bits is enough.
pub read_bits : ReadCtx → ℕ → Reading
read_bits c num_bits =
    if ltb 31 num_bits then (err_read_bit, c, 0) else read_loop (suc num_bits) num_bits c num_bits 0

-- mpp_read_longbits. `old` is what `out` pointed to before, which an error leaves.
pub read_longbits : ReadCtx → ℕ → ℕ → Reading
read_longbits c num_bits old =
    let (ret, c', val) = read_bits c 16 in
    let (ret', c'', val1) = read_bits c' (num_bits - 16) in
    if ltb num_bits 32
    then read_bits c num_bits
    else if is_err ret
    then (err_read_bit, c', old)
    else if is_err ret'
    then (err_read_bit, c'', old)
    else (ok, c'', bit_or (u32 (val * 2 ^ 16)) val1)

-- The loop of mpp_skip_bits, on fuel, and the stores behind it.
pub skip_loop : ℕ → ℕ → ReadCtx → ℕ → Ret × ReadCtx
skip_loop zero num_bits c bits_left =
    (ok, record c { remaining = c.remaining - bits_left; used_bits = u32 (c.used_bits + num_bits) })
skip_loop (suc fuel) num_bits c bits_left =
    let (ret, c') = update_curbyte c in
    let more = skip_loop fuel num_bits c' (bits_left - c.remaining) in
    if ltb c.remaining bits_left then (if is_err ret then (err_read_bit, c') else more) else (
      ok,
      record c { remaining = c.remaining - bits_left; used_bits = u32 (c.used_bits + num_bits) },
    )

-- mpp_skip_bits. A negative count gives bits back to the current byte.
pub skip_bits : ReadCtx → ℤ → Ret × ReadCtx
skip_bits c (pos n) = skip_loop (suc n) n c n
skip_bits c (negsuc n) = (
  ok,
  record c { remaining = c.remaining + suc n; used_bits = u32 (c.used_bits + 2 ^ 32 - suc n) },
)

pub skip_longbits : ReadCtx → ℤ → Ret × ReadCtx
skip_longbits c num_bits =
    let (ret, c') = skip_bits c (pos 16) in
    let (ret', c'') = skip_bits c' (num_bits -ℤ pos 16) in
    if is_err ret
    then (err_read_bit, c')
    else if is_err ret'
    then (err_read_bit, c'')
    else (ok, c'')

-- mpp_show_bits and mpp_show_longbits read from a copy of the context.
pub show_bits : ReadCtx → ℕ → ℕ → Ret × ℕ
show_bits c num_bits old =
    let (ret, _, out) = read_bits c num_bits in
    let (ret', _, out') = read_longbits c num_bits old in
    if ltb num_bits 32 then (ret, out) else (ret', out')

pub show_longbits : ReadCtx → ℕ → ℕ → Ret × ℕ
show_longbits c num_bits old = let (ret, _, out) = read_longbits c num_bits old in (ret, out)

-- The loop of mpp_read_ue: the zeros before the first one. `none` means that the fuel ran out.
pub zeros_loop : ℕ → ReadCtx → ℕ → Option (Ret × ReadCtx × ℕ)
zeros_loop zero c num_bits = none
zeros_loop (suc fuel) c num_bits =
    let (ret, c', bit) = read_bits c 1 in
    let more = zeros_loop fuel c' (num_bits + 1) in
    if is_err ret
    then some (err_read_bit, c', num_bits)
    else if bit == 0
    then more
    else some (ok, c', num_bits)

-- What follows the zeros.
pub ue_rest : ReadCtx → ℕ → ℕ → Reading
ue_rest c num_bits old =
    let base = 2 ^ num_bits - 1 in
    let (ret, c', rest) = read_bits c num_bits in
    if ltb 31 num_bits
    then (err_read_bit, c, old)
    else if ltb 0 num_bits
    then (if is_err ret then (err_read_bit, c', base) else (ok, c', u32 (base + rest)))
    else (ok, c, base)

-- mpp_read_ue. Each round takes a bit, so a round more than there are bits is enough.
pub read_ue : ReadCtx → ℕ → Option Reading
read_ue c old = do
  (ret, c', num_bits) ← zeros_loop (suc (c.remaining + c.bytes_left * 8)) c 0
  some (if is_err ret then (err_read_bit, c', old) else ue_rest c' num_bits old)

-- The signed value of a code number.
pub se_of_ue : ℕ → ℤ
se_of_ue ue =
    if ue % 2 == 0 then (if ue / 2 == 0 then pos 0 else negsuc (ue / 2 - 1)) else pos (ue / 2 + 1)

pub read_se : ReadCtx → ℤ → Option (Ret × ReadCtx × ℤ)
read_se c old = do
  (ret, c', ue) ← read_ue c 0
  some (if is_err ret then (err_read_bit, c', old) else (ok, c', se_of_ue ue))

-- The zero bytes at the end are taken off.
pub trim : ℕ → (ℕ → ℕ) → ℕ → ℕ
trim zero mem next = zero
trim (suc left) mem next =
    let fewer = trim left mem next in if mem (next + left) == 0 then fewer else suc left

-- mpp_has_more_rbsp_data
pub has_more_rbsp_data : ReadCtx → Bool × ReadCtx
has_more_rbsp_data c =
    let c₁ = record c { bytes_left = trim c.bytes_left c.mem c.next } in
    let (ret, c₂) = update_curbyte c₁ in
    let rest : ReadCtx → Bool = λ r.
      if ltb 0 r.bytes_left
      then true
      else not (bit_and r.curr_byte (2 ^ (r.remaining - 1) - 1) == 0) in
    if c₁.remaining == 0 then (if is_err ret then (false, c₂) else (rest c₂, c₂)) else (rest c₁, c₁)

-- mpp_set_bitread_ctx
pub set_bitread_ctx : (ℕ → ℕ) → ℕ → ReadCtx
set_bitread_ctx p size = record {
  mem = p;
  next = 0;
  bytes_left = u32 size;
  curr_byte = 0;
  remaining = 0;
  prev_two_bytes = 0xffff;
  emulation_bytes = 0;
  used_bits = 0;
  buf_len = size;
  detects = false;
}

pub set_pre_detection : ReadCtx → ReadCtx
set_pre_detection c = record c { detects = true }

-- mpp_align_get_bits. The return code of the skip is not read.
pub align_get_bits : ReadCtx → ℕ × ReadCtx
align_get_bits c =
    let (_, skipped) = skip_bits c (pos c.remaining) in
    let c' = if ltb 0 c.remaining then skipped else c in (c'.next, c')
