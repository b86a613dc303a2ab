-- ===== src/BitReader/Skip.antt =====
-- mpp_skip_bits and mpp_show_bits beside mpp_read_bits.
use rockchip_kmpp.Prelude.{
  ℕ, zero, suc, ◌-◌, ◌*◌, ◌^◌, ◌≤◌, ◌≡◌, refl, arith, bit_or, false, ltb, Bool-cases, inl, inr,
}
use rockchip_kmpp.Prelude.Int.{pos}
use rockchip_kmpp.Prelude.Ret.{is_err}
use rockchip_kmpp.Prelude.Word.{u32}
use rockchip_kmpp.BitReader.{
  ReadCtx, update_curbyte, read_last, read_loop, read_bits, skip_loop, skip_bits,
}

loop-eq :
    (fuel n k out : ℕ) (c : ReadCtx)
    → skip_loop fuel n c k ≡ ((read_loop fuel n c k out).0, (read_loop fuel n c k out).1)
unfolding skip_loop read_loop read_last
loop-eq zero n k out c = refl
loop-eq (suc fuel) n k out c = elim (Bool-cases (ltb c.remaining k)) [
  | inl more ↦ elim (Bool-cases (is_err (update_curbyte c).0)) [
    | inl bad ↦ rw (more, bad)
    | inr good ↦
        rw (more, good)
          (loop-eq fuel n (k - c.remaining) (u32 (bit_or out (c.curr_byte * 2 ^ (k - c.remaining))))
            (update_curbyte c).1)
  ]
  | inr last ↦ rw last
]

-- mpp_skip_bits of up to 31 bits, on any reader, returns what mpp_read_bits returns and leaves the
-- same context.
pub skip_bits-read_bits :
    (n : ℕ) (c : ReadCtx) → n ≤ 31 → skip_bits c (pos n) ≡ ((read_bits c n).0, (read_bits c n).1)
unfolding skip_bits read_bits
skip_bits-read_bits n c h =
    let quiet : ltb 31 n ≡ false = ground arith in rw quiet (loop-eq (suc n) n n 0 c)
