-- ===== src/BitWriter/Tests.antt =====
-- Runs of the bit writer on small inputs.
use rockchip_kmpp.Prelude.{ℕ, ◌+◌, ◌-◌, ◌^◌, ◌≡◌, refl, arith, [], ◌∷◌, ◌++◌, false}
use rockchip_kmpp.Prelude.Word.{slice, to_bits}
use rockchip_kmpp.BitWriter.{
  WriteCtx, status, init, put_bits, put_raw_bits, raw_loop, raw_round, escaped_loop, escaped_round,
  put_ue, put_long, count_bits, trailing,
}
use rockchip_kmpp.BitWriter.Payload.{payload, IsWriting}
use rockchip_kmpp.BitWriter.Put.{Says, put_bits-Says, init-IsWriting}
use rockchip_kmpp.BitWriter.Golomb.{HasWidth, ue_code, put_ue-Says, put_ue_collision}
use rockchip_kmpp.BitWriter.Align.{Overruns, put_bits_overrun}

-- The memory before the writer.
abbrev blank : ℕ → ℕ
blank _ = 0xaa

abbrev fresh : WriteCtx
fresh = record {
  mem = blank;
  stream = 0;
  size = 64;
  byte_cnt = 0;
  byte_buffer = 0;
  buffered_bits = 0;
  zero_bytes = 0;
  overflow = false;
  emul_cnt = 0;
}

escaped_bytes : let c = put_bits fresh 1 24 in slice c.mem 0 c.stream ≡ 0 ∷ 0 ∷ 3 ∷ 1 ∷ []
unfolding put_bits escaped_loop escaped_round status slice
escaped_bytes = refl

raw_bytes : let c = put_raw_bits fresh 1 24 in slice c.mem 0 c.stream ≡ 0 ∷ 0 ∷ 1 ∷ []
unfolding put_raw_bits raw_loop raw_round status slice
raw_bytes = refl

ue_bytes : let c = trailing (put_ue (put_ue fresh 3) 0) in slice c.mem 0 c.stream ≡ 0x26 ∷ []
unfolding trailing put_ue put_bits escaped_loop escaped_round status slice count_bits put_long
ue_bytes = refl

abbrev opened : WriteCtx
opened = (init blank 64).1

opened-IsWriting : IsWriting 0 opened
opened-IsWriting = (init-IsWriting blank 64 (omega arith)).1

put_bits-Says_example :
    Says 0 opened (put_bits opened 5 3) (payload 0 opened ++ to_bits 3 5) (opened.byte_cnt + 6)
unfolding init status
put_bits-Says_example =
    put_bits-Says 0 opened 5 3 opened-IsWriting (omega arith) (omega arith) (omega arith)

four-HasWidth : HasWidth 3 4
four-HasWidth = record { some_digits = omega arith; low = omega arith; high = omega arith }

put_ue-Says_example :
    Says 0 opened (put_ue opened 3) (payload 0 opened ++ ue_code 3 3) (opened.byte_cnt + 12)
unfolding init status
put_ue-Says_example =
    put_ue-Says 0 opened 3 3 opened-IsWriting four-HasWidth (omega arith) (omega arith)

wide-HasWidth : HasWidth 25 (2 ^ 24)
wide-HasWidth = record { some_digits = omega arith; low = omega arith; high = omega arith }

wide_next-HasWidth : HasWidth 25 (2 ^ 24 + 1)
wide_next-HasWidth = record { some_digits = omega arith; low = omega arith; high = omega arith }

put_ue_collision_example : put_ue fresh (2 ^ 24 - 1) ≡ put_ue fresh (2 ^ 24)
put_ue_collision_example =
    put_ue_collision fresh (2 ^ 24 - 1) (2 ^ 24) 25 wide-HasWidth wide_next-HasWidth (omega arith)
      (omega arith) (omega arith)

abbrev full : WriteCtx
full = record fresh { stream = 64; byte_cnt = 64 }

put_bits_overrun_example : Overruns full 255 (put_bits full 255 8)
put_bits_overrun_example =
    put_bits_overrun full 255 8 (omega arith) (omega arith) (omega arith) (omega arith)
