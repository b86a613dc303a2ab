-- ===== src/BitReader/Tests.antt =====
-- Runs of the bit reader on small inputs.
use mathlib.Core.Option
use rockchip_kmpp.Prelude.{
  zero, suc, ℕ, ◌*◌, ◌^◌, ◌≤◌, ◌<◌, ◌≡◌, refl, arith, ◌⊎◌, [], ◌∷◌, List, map, length, some, true,
  get_or,
}
use rockchip_kmpp.Prelude.Ret.{Ret, ok, err_read_bit}
use rockchip_kmpp.Prelude.Int.{ℤ, pos, ◌-ℤ◌}
use rockchip_kmpp.BitWriter.{init, trailing}
use rockchip_kmpp.BitWriter.Golomb.{HasWidth}
use rockchip_kmpp.BitReader.{
  ReadCtx, Reading, load_byte, skip_emulation, update_curbyte, read_last, read_loop, read_bits,
  skip_loop, skip_bits, skip_longbits, zeros_loop, ue_rest, read_ue, read_se, se_of_ue, trim,
  has_more_rbsp_data, set_bitread_ctx, set_pre_detection,
}
use rockchip_kmpp.BitReader.Unread.{unread, IsReading}
use rockchip_kmpp.BitReader.Bits.{Takes, read_bits_lem}
use rockchip_kmpp.BitReader.Skip.{skip_bits-read_bits}
use rockchip_kmpp.BitReader.Golomb.{read_ue-total}
use rockchip_kmpp.BitReader.Items.{Item, bits, ue, coding, value, put_items, get_items}
use rockchip_kmpp.BitReader.Trip.{reader, get_items-put_items}

-- 0x26 is the code words of 3 and 0, and a stop bit; the byte 3 behind the zeros is no part of it.
abbrev stream : List ℕ
stream = 0x26 ∷ 0 ∷ 0 ∷ 3 ∷ 1 ∷ []

abbrev opened : ReadCtx
opened = set_pre_detection (set_bitread_ctx (λ i. get_or stream i 0) 5)

reads_over_emulation :
    let r = read_bits opened 31 in
    let r' = read_bits r.1 1 in (r.0 ≡ ok) × (r.2 ≡ 0x26 * 2 ^ 23) × (r'.2 ≡ 1) × (r'.1.next ≡ 5)
unfolding read_bits read_loop read_last update_curbyte load_byte skip_emulation set_pre_detection
    set_bitread_ctx
reads_over_emulation = (refl, refl, refl, refl)

reads_codes : Option.map (λ (r : Ret × ReadCtx × ℤ). r.2) (read_se opened (pos 7)) ≡ some (pos 2)
unfolding read_se read_ue zeros_loop ue_rest se_of_ue read_bits read_loop read_last update_curbyte
    load_byte skip_emulation set_pre_detection set_bitread_ctx
reads_codes = refl

has_more : (has_more_rbsp_data opened).0 ≡ true
unfolding has_more_rbsp_data trim update_curbyte load_byte skip_emulation set_pre_detection
    set_bitread_ctx
has_more = refl

-- A count below 16 gives bits back that the current byte does not have.
skips_back : (skip_longbits opened (pos 7)).1.remaining ≡ 9
unfolding skip_longbits skip_bits skip_loop update_curbyte load_byte skip_emulation
    set_pre_detection set_bitread_ctx ◌-ℤ◌
skips_back = refl

opened-IsReading : IsReading opened
unfolding set_pre_detection set_bitread_ctx
opened-IsReading = record { memory = small; few = omega arith; small = omega arith }
  where
    small : (i : ℕ) → get_or stream i 0 < 2 ^ 8
    small zero = omega arith
    small (suc zero) = omega arith
    small (suc (suc zero)) = omega arith
    small (suc (suc (suc zero))) = omega arith
    small (suc (suc (suc (suc zero)))) = omega arith
    small (suc (suc (suc (suc (suc i))))) = omega arith

read_bits_lem_example :
    (5 ≤ 31) × (5 ≤ length (unread opened)) × Takes 5 [] opened (read_bits opened 5)
    ⊎ ((31 < 5) ⊎ (length (unread opened) < 5)) × ((read_bits opened 5).0 ≡ err_read_bit)
read_bits_lem_example = read_bits_lem 5 opened opened-IsReading

skip_bits-read_bits_example :
    skip_bits opened (pos 20) ≡ ((read_bits opened 20).0, (read_bits opened 20).1)
skip_bits-read_bits_example = skip_bits-read_bits 20 opened (omega arith)

read_ue-total_example : (r : Reading) × (read_ue opened 0 ≡ some r)
read_ue-total_example = read_ue-total opened 0 opened-IsReading

four-HasWidth : HasWidth 3 4
four-HasWidth = record { some_digits = omega arith; low = omega arith; high = omega arith }

abbrev fields : List Item
fields = (bits 3, 5) ∷ (ue, 70000) ∷ (bits 24, 0) ∷ (ue, 0) ∷ []

abbrev blank : ℕ → ℕ
blank _ = 0xaa

get_items-put_items_example :
    let c = trailing (put_items (init blank 100).1 fields) in
    get_items (reader 0 c) (map coding fields) ≡ some (map value fields)
get_items-put_items_example =
    get_items-put_items blank 100 fields (λ i. omega arith) (omega arith) (omega arith)
      (omega arith)
