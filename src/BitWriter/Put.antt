-- ===== src/BitWriter/Put.antt =====
-- mpp_writer_put_bits adds the digits of its value to what a reader of the section sees.
use native.Mathlib.Nat.{add_comm, one-le-pow, mod-lt, mul-div_left, div-add-mod'}
use native.Mathlib.Decide.{dec_lt}
use rockchip_kmpp.Prelude.{
  ℕ, zero, suc, ◌+◌, ◌-◌, ◌*◌, ◌/◌, ◌%◌, ◌^◌, ◌≤◌, ◌<◌, ◌≡◌, refl, ap, ◌∙◌, sym, List, [], ◌++◌,
  append_assoc, arith, true, false, bit_or, ltb,
}
use rockchip_kmpp.Prelude.Word.{u32, to_bits, to_bits-append, pow_add, slice}
use rockchip_kmpp.BitWriter.{WriteCtx, status, init, escaped_round, escaped_loop, put_bits}
use rockchip_kmpp.BitWriter.Step.{packed, packed-or, packed-top, packed-shift}
use rockchip_kmpp.Prelude.Ret.{ok}
use rockchip_kmpp.BitWriter.Escape.{zeros, unescape, octets}
use rockchip_kmpp.BitWriter.Payload.{
  read_back, pending, payload, IsSection, IsWriting, round-counted, round-IsSection,
  round-read_back,
}

-- `c'` is a writer in order whose section says `digits`, with at most `top` bytes in memory.
pub record Says (s : ℕ) (c c' : WriteCtx) (digits : List ℕ) (top : ℕ) : Type 0 where
  pub writing : IsWriting s c'
  pub says : payload s c' ≡ digits
  pub used : c'.byte_cnt ≤ top
  pub size_kept : c'.size ≡ c.size

escaped_loop-last :
    (fuel n acc : ℕ) (c : WriteCtx)
    → n ≤ 7
    → escaped_loop fuel c (packed n acc) n
      ≡ record c { byte_buffer = packed n acc; buffered_bits = n }
unfolding escaped_loop
escaped_loop-last zero n acc c h = ground arith
escaped_loop-last (suc fuel) n acc c h = ground arith

escaped_loop-more :
    (fuel m acc : ℕ) (c : WriteCtx)
    → m ≤ 24
    → acc < 2 ^ (m + 8)
    → c.byte_cnt ≤ c.size
    → escaped_loop (suc fuel) c (packed (m + 8) acc) (m + 8)
      ≡ escaped_loop fuel (escaped_round c (packed (m + 8) acc)) (packed m (acc % 2 ^ m)) m
unfolding escaped_loop status
escaped_loop-more fuel m acc c h a room =
    let back : m + 8 - 8 ≡ m = omega arith in
    let test : ltb 7 (m + 8) ≡ true = ground arith in
    let quiet : ltb c.size c.byte_cnt ≡ false = ground arith in
    rw (test, quiet, packed-shift m acc h a, back)

last-Says :
    (s n acc top : ℕ) (c : WriteCtx)
    → n ≤ 7
    → c.byte_cnt ≤ top
    → acc < 2 ^ n
    → IsSection s c
    → Says s c
        (record c { byte_buffer = packed n acc; buffered_bits = n })
        (read_back s c ++ to_bits n acc)
        top
last-Says s n acc top c h t a v =
    let value : packed n acc / 2 ^ (32 - n) ≡ acc =
      mul-div_left acc (one-le-pow (32 - n) 2 (omega arith)) in
    record {
      writing = record {
        memory = record {
          begun = v.begun;
          counted = v.counted;
          size_small = v.size_small;
          run = v.run;
          run_short = v.run_short;
          legal = v.legal;
        };
        few = omega arith;
        packs = ap (packed n) (sym value);
        fits = rw value a;
      };
      says = ap (λ t. read_back s c ++ to_bits n t) value;
      used = omega arith;
      size_kept = refl;
    }

-- A round and the digits behind it: the digits of the whole value.
round_digits :
    (s m acc : ℕ) (c : WriteCtx)
    → m ≤ 24
    → acc < 2 ^ (m + 8)
    → IsSection s c
    → c.byte_cnt ≤ c.size
    → read_back s (escaped_round c (packed (m + 8) acc)) ++ to_bits m (acc % 2 ^ m)
      ≡ read_back s c ++ to_bits (m + 8) acc
round_digits s m acc c h a v room =
    let positive : 1 ≤ 2 ^ m = one-le-pow m 2 (omega arith) in
    let split = to_bits-append 8 m (acc / 2 ^ m) (acc % 2 ^ m) (mod-lt acc positive) in
    rw (
      round-read_back s c (packed (m + 8) acc) v room,
      packed-top m acc h a,
      append_assoc (read_back s c) (to_bits 8 (acc / 2 ^ m)) (to_bits m (acc % 2 ^ m)),
      ← split,
      div-add-mod' acc (2 ^ m),
      add_comm 8 m,
    )

round-Says :
    (s m acc : ℕ) (c : WriteCtx) {c' : WriteCtx}
    → m ≤ 24
    → acc < 2 ^ (m + 8)
    → IsSection s c
    → c.byte_cnt ≤ c.size
    → let r = escaped_round c (packed (m + 8) acc) in
      Says s r c' (read_back s r ++ to_bits m (acc % 2 ^ m)) (r.byte_cnt + 2 * (m / 8))
      → Says s c c' (read_back s c ++ to_bits (m + 8) acc) (c.byte_cnt + 2 * ((m + 8) / 8))
round-Says s m acc c h a v room rest =
    let n = round-counted s c (packed (m + 8) acc) v room in
    record {
      writing = rest.writing;
      says = rest.says ∙ round_digits s m acc c h a v room;
      used = omega (arith, rest.used, n.2);
      size_kept = rest.size_kept ∙ n.3;
    }

escaped_loop_lem :
    (fuel s n acc : ℕ) (c : WriteCtx)
    → n ≤ fuel
    → n ≤ 32
    → acc < 2 ^ n
    → IsSection s c
    → c.byte_cnt + 2 * (n / 8) ≤ c.size + 2
    → Says s c
        (escaped_loop fuel c (packed n acc) n)
        (read_back s c ++ to_bits n acc)
        (c.byte_cnt + 2 * (n / 8))
escaped_loop_lem zero s n acc c f h a v room =
    rw (escaped_loop-last zero n acc c (omega arith))
      (last-Says s n acc (c.byte_cnt + 2 * (n / 8)) c (omega arith) (omega arith) a v)
escaped_loop_lem (suc fuel) s n acc c f h a v room = elim (dec_lt 7 n) [
  | no few ↦
      rw (escaped_loop-last (suc fuel) n acc c (omega arith))
        (last-Says s n acc (c.byte_cnt + 2 * (n / 8)) c (omega arith) (omega arith) a v)
  | yes many ↦
      let m = n - 8 in
      let n_is : n ≡ m + 8 = omega arith in
      let a' : acc < 2 ^ (m + 8) = rw (← n_is) a in
      let low : m ≤ 24 = omega arith in
      let free : c.byte_cnt ≤ c.size = omega arith in
      let n' = round-counted s c (packed (m + 8) acc) v free in
      rw (n_is, escaped_loop-more fuel m acc c low a' free)
        (round-Says s m acc c low a' v free (
          escaped_loop_lem fuel s m (acc % 2 ^ m) (escaped_round c (packed (m + 8) acc))
            (omega arith) (omega arith) (mod-lt acc (one-le-pow m 2 (omega arith)))
            (round-IsSection s c (packed (m + 8) acc) v free) (omega (arith, n'.2, n'.3))))
]

joined_lt : (len b p val : ℕ) → val < 2 ^ len → p < 2 ^ b → p * 2 ^ len + val < 2 ^ (len + b)
joined_lt len b p val v f =
    let total = pow_add len b in
    let whole : (p + 1) * 2 ^ len ≤ 2 ^ b * 2 ^ len = grind arith in omega arith

-- On a writer in order whose buffer has room for four bytes more, mpp_writer_put_bits of a value
-- of up to 24 digits keeps the section legal: what a reader takes from it is what it was, followed
-- by the digits of the value, and at most six bytes have come to the count.
pub put_bits-Says :
    (s : ℕ) (c : WriteCtx) (val len : ℕ)
    → IsWriting s c
    → len ≤ 24
    → val < 2 ^ len
    → c.byte_cnt + 4 ≤ c.size
    → Says s c (put_bits c val len) (payload s c ++ to_bits len val) (c.byte_cnt + 6)
unfolding put_bits
put_bits-Says s c val len w l v room =
    let n = len + c.buffered_bits in
    let acc = pending c * 2 ^ len + val in
    let joined =
      ap (λ (t : ℕ). bit_or t (u32 (val * 2 ^ (32 - n)))) w.packs
      ∙ packed-or c.buffered_bits len (pending c) val (omega (arith, w.few)) v in
    let below : acc < 2 ^ n = joined_lt len c.buffered_bits (pending c) val v w.fits in
    let digits : to_bits n acc ≡ to_bits c.buffered_bits (pending c) ++ to_bits len val =
      rw (add_comm len c.buffered_bits) (to_bits-append c.buffered_bits len (pending c) val v) in
    let all =
      escaped_loop_lem n s n acc c (omega arith) (omega (arith, w.few)) below w.memory
        (omega (arith, w.few)) in
    rw joined (record {
      writing = all.writing;
      says =
          all.says ∙ ap (λ t. read_back s c ++ t) digits ∙ sym (append_assoc (read_back s c) _ _);
      used = omega (arith, all.used, w.few);
      size_kept = all.size_kept;
    })

-- The same digits, spelt otherwise, and more room.
pub Says-weaken :
    {s : ℕ} {c c' : WriteCtx} {xs ys : List ℕ} {t u : ℕ}
    → xs ≡ ys
    → t ≤ u
    → Says s c c' xs t
    → Says s c c' ys u
Says-weaken e h a = record {
  writing = a.writing;
  says = a.says ∙ e;
  used = omega (arith, a.used);
  size_kept = a.size_kept;
}

-- Two calls in a row.
pub Says-then :
    {s : ℕ} {c c₁ c₂ : WriteCtx} {t : ℕ} (u : ℕ) (xs ys zs : List ℕ)
    → Says s c c₁ (xs ++ ys) t
    → Says s c₁ c₂ (payload s c₁ ++ zs) (c₁.byte_cnt + u)
    → Says s c c₂ (xs ++ (ys ++ zs)) (t + u)
Says-then u xs ys zs a b = record {
  writing = b.writing;
  says = b.says ∙ ap (λ t. t ++ zs) a.says ∙ append_assoc xs ys zs;
  used = omega (arith, a.used, b.used);
  size_kept = b.size_kept ∙ a.size_kept;
}

-- mpp_writer_init for a buffer of less than 2 GiB succeeds and gives a writer in order, from whose
-- section a reader takes nothing yet.
pub init-IsWriting :
    (p : ℕ → ℕ) (size : ℕ)
    → size < 2 ^ 31
    → ((init p size).0 ≡ ok) × IsWriting 0 (init p size).1 × (payload 0 (init p size).1 ≡ [])
unfolding init status slice zeros unescape octets to_bits
init-IsWriting p size h =
    let quiet : ltb (u32 size) 0 ≡ false = ground arith in
    rw quiet (
      refl,
      record {
        memory = record {
          begun = omega arith;
          counted = refl;
          size_small = omega arith;
          run = refl;
          run_short = omega arith;
          legal = tt;
        };
        few = omega arith;
        packs = omega arith;
        fits = omega arith;
      },
      refl,
    )
