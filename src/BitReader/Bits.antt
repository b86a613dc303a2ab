-- ===== src/BitReader/Bits.antt =====
-- mpp_read_bits takes digits off those that are unread.
use native.Mathlib.Nat.{mod-lt, one-le-pow, div-lt_iff_lt-mul}
use native.Mathlib.Decide.{dec_lt}
use rockchip_kmpp.Prelude.{
  ℕ, zero, suc, ◌+◌, ◌-◌, ◌*◌, ◌/◌, ◌^◌, ◌≤◌, ◌<◌, ◌≡◌, refl, sym, ap, ap₂, subst, ◌∙◌, List, [],
  ◌++◌, append_assoc, arith, bit_or, true, false, ltb, ◌==◌, if◌then◌else◌, ◌⊎◌, inl, inr, length,
  length-append,
}
use rockchip_kmpp.Prelude.Ret.{ok, err_read_bit}
use rockchip_kmpp.Prelude.Word.{u32, to_bits, to_bits-append}
use rockchip_kmpp.Prelude.Bits.{and-mask, zero_or}
use rockchip_kmpp.BitWriter.Escape.{octets}
use rockchip_kmpp.BitReader.{ReadCtx, Reading, update_curbyte, read_last, read_loop, read_bits}
use rockchip_kmpp.BitReader.Digits.{
  length-to_bits, to_bits-split, to_bits-mask, first_part, next_part, pow_split, to_bits-inj,
  append-cancel,
}
use rockchip_kmpp.BitReader.Unread.{unread, to_load, IsReading, Loads, update_cases}

-- `r` took `n` digits off the unread ones of `c`, with `before` in front of them.
pub record Takes (n : ℕ) (before : List ℕ) (c : ReadCtx) (r : Reading) : Type 0 where
  pub done : r.0 ≡ ok
  pub range : r.2 < 2 ^ n
  pub digits : to_bits n r.2 ++ unread r.1 ≡ before ++ unread c
  pub reading : IsReading r.1

-- The digits `j` of `q` stand in the word, or the word is empty and takes a byte whole.
abbrev Fits : ℕ → ℕ → ℕ → ℕ → Type 0
Fits j q r v = ((j ≡ 0) × (q ≡ 0)) ⊎ (v < 2 ^ r)

pub part_lem :
    (j r e q v : ℕ)
    → r + e ≤ 32
    → q * 2 ^ (r + e) < 2 ^ 32
    → Fits j q r v
    → (q' : ℕ) × (u32 (bit_or (q * 2 ^ (r + e)) (v * 2 ^ e)) ≡ q' * 2 ^ e)
      × (to_bits (j + r) q' ≡ to_bits j q ++ to_bits r v)
unfolding to_bits
part_lem j r e q v h low (inl (none_yet, empty)) =
    let (q', word, digits) = first_part r e v h in
    let nothing : q * 2 ^ (r + e) ≡ 0 = rw empty (omega arith) in
    let length_is : j + r ≡ r = omega arith in
    (
      q',
      ap (λ (t : ℕ). u32 (bit_or t (v * 2 ^ e))) nothing
          ∙ ap (λ (t : ℕ). u32 t) (zero_or (v * 2 ^ e))
          ∙ word,
      ap (λ (t : ℕ). to_bits t q') length_is
          ∙ digits
          ∙ ap (λ (t : ℕ). to_bits t q ++ to_bits r v) (sym none_yet),
    )
part_lem j r e q v h low (inr below) =
    (q * 2 ^ r + v, next_part r e q v low h below, to_bits-append j r q v below)

-- The same at any spelling of the shifts.
joined :
    (j k r e q v w : ℕ)
    → k ≡ r + e
    → w ≡ v * 2 ^ e
    → k ≤ 32
    → q * 2 ^ k < 2 ^ 32
    → Fits j q r v
    → (q' : ℕ) × (u32 (bit_or (q * 2 ^ k) w) ≡ q' * 2 ^ e)
      × (to_bits (j + r) q' ≡ to_bits j q ++ to_bits r v)
joined j k r e q v w hk hw h low fits =
    let word : q * 2 ^ k ≡ q * 2 ^ (r + e) = ap (λ (t : ℕ). q * 2 ^ t) hk in
    let (q', sum, digits) = part_lem j r e q v (omega arith) (omega arith) fits in
    (q', ap₂ (λ (a b : ℕ). u32 (bit_or a b)) word hw ∙ sum, digits)

Fits-high : (j q k r v : ℕ) → k ≤ r → Fits j q r v → Fits j q k (v / 2 ^ (r - k))
Fits-high j q k r v h (inl e) = inl e
Fits-high j q k r v h (inr below) =
    let whole : 2 ^ r ≡ 2 ^ k * 2 ^ (r - k) = pow_split r k (r - k) (omega arith) in
    inr ((div-lt_iff_lt-mul (one-le-pow (r - k) 2 (omega arith))).1 (omega arith))

-- The stores, when the digits of `q'` are those that stand and the high ones of the byte.
last_taken :
    (n j k q q' : ℕ) (c : ReadCtx)
    → n ≡ j + k
    → k ≤ c.remaining
    → IsReading c
    → (let high = c.curr_byte / 2 ^ (c.remaining - k) in
        (u32 (bit_or (q * 2 ^ k) high) ≡ q') × (to_bits n q' ≡ to_bits j q ++ to_bits k high))
    → Takes n (to_bits j q) c (read_last n c k (q * 2 ^ k))
unfolding read_last
last_taken n j k q q' c hn room v (word, digits) =
    let r = c.remaining in
    let high = c.curr_byte / 2 ^ (r - k) in
    let parts : to_bits r c.curr_byte ≡ to_bits k high ++ to_bits (r - k) c.curr_byte =
      ap (λ (t : ℕ). to_bits t c.curr_byte) (omega arith) ∙ to_bits-split k (r - k) c.curr_byte in
    let rest = octets (to_load c) in
    rw word (record {
      done = refl;
      range = rw (and-mask n q') (mod-lt q' (one-le-pow n 2 (omega arith)));
      digits =
          rw (to_bits-mask n q', digits, parts)
            (append_assoc (to_bits j q) (to_bits k high) (to_bits (r - k) c.curr_byte ++ rest)
              ∙ ap (λ t. to_bits j q ++ t)
                  (sym (append_assoc (to_bits k high) (to_bits (r - k) c.curr_byte) rest)));
      reading = record { memory = v.memory; few = omega (arith, v.few); small = v.small };
    })

last_lem :
    (n j k q : ℕ) (c : ReadCtx)
    → n ≡ j + k
    → n ≤ 31
    → k ≤ c.remaining
    → q * 2 ^ k < 2 ^ 32
    → IsReading c
    → Fits j q c.remaining c.curr_byte
    → Takes n (to_bits j q) c (read_last n c k (q * 2 ^ k))
last_lem n j k q c hn h room low v fits =
    let high = c.curr_byte / 2 ^ (c.remaining - k) in
    let found =
      joined j k k 0 q high high (omega arith) (omega arith) (omega arith) low
        (Fits-high j q k c.remaining c.curr_byte room fits) in
    last_taken n j k q (found.0) c hn room v
      (found.1 ∙ omega arith, ap (λ (t : ℕ). to_bits t (found.0)) hn ∙ found.2)

Loads-unread : {c c' : ReadCtx} → Loads c c' → unread c' ≡ octets (to_load c)
unfolding octets
Loads-unread {c} {c'} l = rw (l.full, l.loaded)

length-unread : (c : ReadCtx) → length (unread c) ≡ c.remaining + length (octets (to_load c))
length-unread c =
    length-append (to_bits c.remaining c.curr_byte) (octets (to_load c))
    ∙ ap (λ (t : ℕ). t + length (octets (to_load c))) (length-to_bits c.remaining c.curr_byte)

-- A round, and the rounds behind it.
round_lem :
    (n j q q' : ℕ) {c c' : ReadCtx} {r : Reading}
    → Loads c c'
    → to_bits (j + c.remaining) q' ≡ to_bits j q ++ to_bits c.remaining c.curr_byte
    → Takes n (to_bits (j + c.remaining) q') c' r
    → Takes n (to_bits j q) c r
round_lem n j q q' {c} {c'} l e t = record {
  done = t.done;
  range = t.range;
  digits =
      t.digits
      ∙ ap₂ (λ xs ys. xs ++ ys) e (Loads-unread l)
      ∙ append_assoc (to_bits j q) (to_bits c.remaining c.curr_byte) (octets (to_load c));
  reading = t.reading;
}

Fits-start :
    {j q : ℕ} {c : ReadCtx}
    → IsReading c
    → ((j ≡ 0) × (q ≡ 0)) ⊎ (c.remaining ≡ 8)
    → Fits j q c.remaining c.curr_byte
Fits-start v (inl e) = inl e
Fits-start v (inr full) = inr (rw full v.small)

loop_lem :
    (fuel n j k q : ℕ) (c : ReadCtx)
    → n ≡ j + k
    → n ≤ 31
    → k + (if c.remaining == 0 then 1 else 0) ≤ fuel
    → q * 2 ^ k < 2 ^ 32
    → k ≤ length (unread c)
    → IsReading c
    → ((j ≡ 0) × (q ≡ 0)) ⊎ (c.remaining ≡ 8)
    → Takes n (to_bits j q) c (read_loop fuel n c k (q * 2 ^ k))
unfolding read_loop octets
loop_lem zero n j k q c hn h f low few v s =
    last_lem n j k q c hn h (omega arith) low v (Fits-start v s)
loop_lem (suc fuel) n j k q c hn h f low few v s = elim (dec_lt c.remaining k) [
  | no last ↦
      let test : ltb c.remaining k ≡ false = ground arith in
      rw test (last_lem n j k q c hn h (omega arith) low v (Fits-start v s))
  | yes more ↦
      let r = c.remaining in
      let test : ltb r k ≡ true = ground arith in
      let found =
        joined j k r (k - r) q c.curr_byte (c.curr_byte * 2 ^ (k - r)) (omega arith) refl
          (omega arith) low (Fits-start v s) in
      let next = (update_curbyte c).1 in
      elim (update_cases c v) [
        | inl (bad, empty) ↦
            let size : length (octets (to_load c)) ≡ 0 = ap (λ t. length (octets t)) empty in
            absurd (omega (arith, length-unread c))
        | inr (good, l) ↦
            let size = ap length (Loads-unread l) in
            let low' : found.0 * 2 ^ (k - r) < 2 ^ 32 =
              rw (← found.1)
                (mod-lt (bit_or (q * 2 ^ k) (c.curr_byte * 2 ^ (k - r))) (omega arith)) in
            rw (test, good, found.1)
              (round_lem n j q (found.0) l (found.2) (
                loop_lem fuel n (j + r) (k - r) (found.0) next (omega arith) h
                  (ground (arith, l.full)) low' (omega (arith, length-unread c)) l.reading
                  (inr l.full)))
      ]
]

read_bits_enough :
    (n : ℕ) (c : ReadCtx)
    → IsReading c
    → n ≤ 31
    → n ≤ length (unread c)
    → Takes n [] c (read_bits c n)
unfolding read_bits to_bits
read_bits_enough n c v h few =
    let quiet : ltb 31 n ≡ false = ground arith in
    let empty_word : 0 * 2 ^ n ≡ 0 = omega arith in
    rw quiet (
      subst (λ (t : ℕ). Takes n [] c (read_loop (suc n) n c n t)) empty_word
        (loop_lem (suc n) n 0 n 0 c (omega arith) h (ground arith) (omega arith) few v
          (inl (refl, refl))))

loop_short :
    (fuel n k out : ℕ) (c : ReadCtx)
    → k + (if c.remaining == 0 then 1 else 0) ≤ fuel
    → length (unread c) < k
    → IsReading c
    → (read_loop fuel n c k out).0 ≡ err_read_bit
unfolding read_loop
loop_short zero n k out c f short v = absurd (omega arith)
loop_short (suc fuel) n k out c f short v =
    let r = c.remaining in
    let more : ltb r k ≡ true = ground (arith, length-unread c) in
    let out' = u32 (bit_or out (c.curr_byte * 2 ^ (k - r))) in
    elim (update_cases c v) [
      | inl (bad, empty) ↦ rw (more, bad)
      | inr (good, l) ↦
          let size = ap length (Loads-unread l) in
          rw (more, good)
            (loop_short fuel n (k - r) out' (update_curbyte c).1
              (ground (arith, l.full, length-unread c)) (omega (arith, length-unread c)) l.reading)
    ]

-- On a reader in order mpp_read_bits of n bits, if n is at most 31 and so many digits are unread,
-- succeeds, takes the first n of them off and gives the number that they spell; and it fails in all
-- other cases.
pub read_bits_lem :
    (n : ℕ) (c : ReadCtx)
    → IsReading c
    → (n ≤ 31) × (n ≤ length (unread c)) × Takes n [] c (read_bits c n)
      ⊎ ((31 < n) ⊎ (length (unread c) < n)) × ((read_bits c n).0 ≡ err_read_bit)
unfolding read_bits
read_bits_lem n c v = elim (dec_lt 31 n) [
  | yes wide ↦ let test : ltb 31 n ≡ true = ground arith in inr (inl wide, rw test)
  | no narrow ↦ elim (dec_lt (length (unread c)) n) [
    | yes short ↦
        let test : ltb 31 n ≡ false = ground arith in
        inr (inr short, rw test (loop_short (suc n) n n 0 c (ground arith) short v))
    | no enough ↦ inl (omega arith, omega arith, read_bits_enough n c v (omega arith) (omega arith))
  ]
]

-- Where the first unread digits are those of a number, it is read.
pub read_bits-digits :
    (n w : ℕ) (rest : List ℕ) (c : ReadCtx)
    → IsReading c
    → n ≤ 31
    → w < 2 ^ n
    → unread c ≡ to_bits n w ++ rest
    → let r = read_bits c n in (r.0 ≡ ok) × (r.2 ≡ w) × (unread r.1 ≡ rest) × IsReading r.1
read_bits-digits n w rest c v h small e =
    let size = ap length e ∙ length-append (to_bits n w) rest in
    let t = read_bits_enough n c v h (omega (arith, length-to_bits n w)) in
    let r = read_bits c n in
    let same =
      append-cancel (to_bits n r.2) (to_bits n w) (unread r.1) rest
        (length-to_bits n r.2 ∙ sym (length-to_bits n w)) (t.digits ∙ e) in
    (t.done, to_bits-inj n r.2 w t.range small (same.0), same.1, t.reading)
