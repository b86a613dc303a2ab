-- ===== src/BitWriter/Raw.antt =====
-- Digits that are written as they are: the start code and the header of a NAL unit, whose five bytes
-- stand in front of the escaped section.
use rockchip_kmpp.Prelude.{
  ℕ, ◌+◌, ◌^◌, ◌≤◌, ◌<◌, ◌≡◌, bit_or, refl, sym, ap, subst, ◌∙◌, ◌*◌, ◌-◌, [], ◌∷◌, arith, false,
  ltb, ◌⊎◌, inl, inr,
}
use rockchip_kmpp.Prelude.Word.{u32, to_bits, slice, update}
use rockchip_kmpp.BitWriter.{WriteCtx, status, init, put_raw_bits, raw_loop, raw_round}
use rockchip_kmpp.BitWriter.Escape.{zeros, unescape, octets}
use rockchip_kmpp.BitWriter.Payload.{payload, IsWriting}
use rockchip_kmpp.BitWriter.Bytes.{IsBytes}

-- The types of the two parameter sets of H.264.
abbrev pub IsType : ℕ → Type 0
IsType type = (type ≡ 7) ⊎ (type ≡ 8)

-- Start code, a zero bit, the priority 3 and the type.
abbrev pub start : WriteCtx → ℕ → WriteCtx
start c type =
    put_raw_bits (put_raw_bits (put_raw_bits (put_raw_bits (put_raw_bits c 0 24) 1 8) 0 1) 3 2) type
      5

-- A writer that has written `n` bytes as they are, and holds `digits` in its byte buffer.
abbrev raw_state : (ℕ → ℕ) → ℕ → ℕ → ℕ → ℕ → WriteCtx
raw_state mem size n byte_buffer buffered_bits = record {
  mem = mem;
  stream = n;
  size = size;
  byte_cnt = n;
  byte_buffer = byte_buffer;
  buffered_bits = buffered_bits;
  zero_bytes = 0;
  overflow = false;
  emul_cnt = 0;
}

raw_step :
    (c : WriteCtx) (val len : ℕ)
    → c.byte_cnt ≤ c.size
    → put_raw_bits c val len
      ≡ raw_loop
          (len + c.buffered_bits)
          c
          (bit_or c.byte_buffer (u32 (val * 2 ^ (32 - (len + c.buffered_bits)))))
          (len + c.buffered_bits)
unfolding put_raw_bits status
raw_step c val len h = let quiet : ltb c.size c.byte_cnt ≡ false = ground arith in rw quiet

module _ (p : ℕ → ℕ) (size type : ℕ) (t : IsType type) (room : 5 ≤ u32 size) where
  abbrev zeroed : ℕ → ℕ
  zeroed = update (update (update p 0 0) 1 0) 2 0

  opened : (init p size).1 ≡ raw_state p (u32 size) 0 0 0
  unfolding init status
  opened = let quiet : ltb (u32 size) 0 ≡ false = ground arith in rw quiet

  first : put_raw_bits (raw_state p (u32 size) 0 0 0) 0 24 ≡ raw_state zeroed (u32 size) 3 0 0
  unfolding raw_loop raw_round
  first = raw_step (raw_state p (u32 size) 0 0 0) 0 24 (omega arith)

  second :
      put_raw_bits (raw_state zeroed (u32 size) 3 0 0) 1 8
      ≡ raw_state (update zeroed 3 1) (u32 size) 4 0 0
  unfolding raw_loop raw_round
  second = raw_step (raw_state zeroed (u32 size) 3 0 0) 1 8 (omega arith)

  third :
      put_raw_bits (raw_state (update zeroed 3 1) (u32 size) 4 0 0) 0 1
      ≡ raw_state (update zeroed 3 1) (u32 size) 4 0 1
  unfolding raw_loop raw_round
  third = raw_step (raw_state (update zeroed 3 1) (u32 size) 4 0 0) 0 1 (omega arith)

  fourth :
      put_raw_bits (raw_state (update zeroed 3 1) (u32 size) 4 0 1) 3 2
      ≡ raw_state (update zeroed 3 1) (u32 size) 4 (3 * 2 ^ 29) 3
  unfolding raw_loop raw_round
  fourth = raw_step (raw_state (update zeroed 3 1) (u32 size) 4 0 1) 3 2 (omega arith)

  fifth :
      put_raw_bits (raw_state (update zeroed 3 1) (u32 size) 4 (3 * 2 ^ 29) 3) type 5
      ≡ raw_state (update (update zeroed 3 1) 4 (0x60 + type)) (u32 size) 5 0 0
  unfolding raw_loop raw_round
  fifth =
      let held = raw_state (update zeroed 3 1) (u32 size) 4 (3 * 2 ^ 29) 3 in
      elim t [
        | inl e ↦ rw e (raw_step held 7 5 (omega arith))
        | inr e ↦ rw e (raw_step held 8 5 (omega arith))
      ]

  start_lem :
      start (init p size).1 type
      ≡ raw_state (update (update zeroed 3 1) 4 (0x60 + type)) (u32 size) 5 0 0
  start_lem =
      ap (λ c. start c type) opened
      ∙ ap (λ c. put_raw_bits (put_raw_bits (put_raw_bits (put_raw_bits c 1 8) 0 1) 3 2) type 5)
          first
      ∙ ap (λ c. put_raw_bits (put_raw_bits (put_raw_bits c 0 1) 3 2) type 5) second
      ∙ ap (λ c. put_raw_bits (put_raw_bits c 3 2) type 5) third
      ∙ ap (λ c. put_raw_bits c type 5) fourth
      ∙ fifth

-- A writer whose section begins behind the header, with what the header is.
pub record Started (p : ℕ → ℕ) (size type : ℕ) (c : WriteCtx) : Type 0 where
  pub writing : IsWriting 5 c
  pub empty : payload 5 c ≡ []
  pub head : slice c.mem 0 5 ≡ 0 ∷ 0 ∷ 0 ∷ 1 ∷ (0x60 + type) ∷ []
  pub count : c.byte_cnt ≡ 5
  pub size_kept : c.size ≡ size
  pub bytes : ((i : ℕ) → p i < 2 ^ 8) → IsBytes c

pub start-Started :
    (p : ℕ → ℕ) (size type : ℕ)
    → IsType type
    → 5 ≤ size
    → size < 2 ^ 31
    → Started p size type (start (init p size).1 type)
unfolding slice zeros unescape octets to_bits
start-Started p size type t room small =
    let plain : u32 size ≡ size = omega arith in
    subst (Started p size type) (sym (start_lem p size type t (omega arith))) (record {
      writing = record {
        memory = record {
          begun = omega arith;
          counted = refl;
          size_small = omega arith;
          run = refl;
          run_short = omega arith;
          legal = tt;
        };
        few = omega arith;
        packs = omega arith;
        fits = omega arith;
      };
      empty = refl;
      head = refl;
      count = refl;
      size_kept = plain;
      bytes = λ h i. ground (arith, h i, t);
    })
