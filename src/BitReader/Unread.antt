-- ===== src/BitReader/Unread.antt =====
-- The digits that a reader has not yet taken, and how update_curbyte moves on in them.
use rockchip_kmpp.Prelude.{
  ℕ, zero, suc, ◌+◌, ◌-◌, ◌*◌, ◌%◌, ◌^◌, ◌≤◌, ◌<◌, ◌≡◌, refl, sym, ap, ap₂, ◌∙◌, List, [], ◌∷◌,
  ◌++◌, arith, bit_or, bit_and, Bool, true, false, ◌&&◌, ltb, ◌==◌, if◌then◌else◌, Bool-cases, ◌⊎◌,
  inl, inr,
}
use rockchip_kmpp.Prelude.Ret.{ok, err_read_bit}
use rockchip_kmpp.Prelude.Word.{to_bits, slice}
use rockchip_kmpp.Prelude.Bits.{or-disjoint, and-mask}
use rockchip_kmpp.BitWriter.Escape.{kept, zeros_after, unescape, octets, IsLegal}
use rockchip_kmpp.BitReader.{ReadCtx, is_emulation, load_byte, skip_emulation, update_curbyte}

-- Whether one zero byte was just read, or two at least, after one more byte.
abbrev pub run_after : ℕ → ℕ → ℕ
run_after n b = if b == 0 then (if n == 0 then 1 else 2) else 0

-- The bytes without those of the emulation prevention.
unfoldable pub strip : ℕ → List ℕ → List ℕ
strip n [] = []
strip n (b ∷ bs) = kept n b ++ strip (run_after n b) bs

-- On a legal section this is what Annex B says.
pub strip-unescape : (n : ℕ) (bs : List ℕ) → n ≤ 2 → IsLegal n bs → strip n bs ≡ unescape n bs
unfolding strip unescape
strip-unescape n [] h l = refl
strip-unescape n (b ∷ bs) h l = elim (Bool-cases (b == 0)) [
  | inl z ↦
      let low : n ≤ 1 = ground (arith, l.0) in
      let same : run_after n b ≡ zeros_after n b = ground arith in
      ap (λ t. kept n b ++ t)
        (ap (λ (t : ℕ). strip t bs) same ∙ strip-unescape (zeros_after n b) bs (ground arith) l.1)
  | inr p ↦
      let same : zeros_after n b ≡ 0 = ground arith in
      rw p (ap (λ t. kept n b ++ t) (strip-unescape 0 bs (omega arith) (rw same at (l.1))))
]

-- The zero bytes just read, as the two last bytes show them.
abbrev pub run_of : ℕ → ℕ
run_of prev = if prev % 2 ^ 16 == 0 then 2 else if prev % 2 ^ 8 == 0 then 1 else 0

abbrev pub window : ReadCtx → List ℕ
window c = slice c.mem c.next c.bytes_left

-- The bytes that are still to be loaded.
abbrev pub to_load : ReadCtx → List ℕ
to_load c = if c.detects then strip (run_of c.prev_two_bytes) (window c) else window c

-- The digits that are still to be read.
abbrev pub unread : ReadCtx → List ℕ
unread c = to_bits c.remaining c.curr_byte ++ octets (to_load c)

-- The memory holds bytes, and so does the current one.
pub record IsReading (c : ReadCtx) : Type 0 where
  pub memory : (i : ℕ) → c.mem i < 2 ^ 8
  pub few : c.remaining ≤ 8
  pub small : c.curr_byte < 2 ^ 8

-- `c'` has loaded the next byte of `c`.
pub record Loads (c c' : ReadCtx) : Type 0 where
  pub loaded : to_load c ≡ c'.curr_byte ∷ to_load c'
  pub full : c'.remaining ≡ 8
  pub reading : IsReading c'
  pub used_kept : c'.used_bits ≡ c.used_bits
  pub fewer : c'.bytes_left < c.bytes_left

pub slice-cons : (m : ℕ → ℕ) (s n : ℕ) → slice m s (suc n) ≡ m s ∷ slice m (s + 1) n
unfolding slice
slice-cons m s zero = ap (λ (t : ℕ). m t ∷ []) (omega arith)
slice-cons m s (suc n) = ap₂ (λ xs (x : ℕ). xs ++ (m x ∷ [])) (slice-cons m s n) (omega arith)

pub window-cons :
    (c : ReadCtx)
    → 0 < c.bytes_left
    → window c ≡ c.mem c.next ∷ slice c.mem (c.next + 1) (c.bytes_left - 1)
window-cons c h =
    let more : c.bytes_left ≡ suc (c.bytes_left - 1) = omega arith in
    ap (λ (t : ℕ). slice c.mem c.next t) more ∙ slice-cons c.mem c.next (c.bytes_left - 1)

byte_of : (x : ℕ) → x < 2 ^ 8 → bit_and x 0xff ≡ x
byte_of x h = and-mask 8 x ∙ omega arith

shifted : (prev b : ℕ) → b < 2 ^ 8 → bit_or (prev * 2 ^ 8 % 2 ^ 64) b ≡ prev % 2 ^ 56 * 2 ^ 8 + b
shifted prev b h =
    let plain : prev * 2 ^ 8 % 2 ^ 64 ≡ prev % 2 ^ 56 * 2 ^ 8 = omega arith in
    rw plain (or-disjoint 8 (prev % 2 ^ 56) b h)

run_of-shifted :
    (prev b : ℕ) → b < 2 ^ 8 → run_of (prev % 2 ^ 56 * 2 ^ 8 + b) ≡ run_after (run_of prev) b
run_of-shifted prev b h = ground arith

load_lem :
    (c : ReadCtx)
    → IsReading c
    → 0 < c.bytes_left
    → (c.detects && ((run_of c.prev_two_bytes == 2) && (c.mem c.next == 3))) ≡ false
    → Loads c (load_byte c)
unfolding load_byte strip
load_lem c v h plain =
    let b = c.mem c.next in
    let small = v.memory c.next in
    let same = byte_of b small in
    let after = run_of-shifted c.prev_two_bytes b small in
    record {
      loaded =
          rw (window-cons c h, same, shifted c.prev_two_bytes b small, after)
            (elim (Bool-cases c.detects) [
              | inl on ↦
                  let no_skip : ((run_of c.prev_two_bytes == 2) && (b == 3)) ≡ false =
                    ground arith in
                  rw (on, no_skip)
              | inr off ↦ rw off
            ]);
      full = refl;
      reading = record { memory = v.memory; few = omega arith; small = rw same small };
      used_kept = refl;
      fewer = omega arith;
    }

emulation_test :
    (c : ReadCtx)
    → is_emulation c ≡ (c.detects && ((run_of c.prev_two_bytes == 2) && (c.mem c.next == 3)))
emulation_test c = rw (and-mask 16 c.prev_two_bytes) (ground arith)

skip_loads :
    (c : ReadCtx)
    → 0 < c.bytes_left
    → (c.detects && ((run_of c.prev_two_bytes == 2) && (c.mem c.next == 3))) ≡ true
    → to_load c ≡ to_load (skip_emulation c)
unfolding skip_emulation strip
skip_loads c h e =
    let on : c.detects ≡ true = ground arith in
    let three : c.mem c.next ≡ 3 = ground arith in
    let two : run_of c.prev_two_bytes ≡ 2 = ground arith in rw (on, two, window-cons c h, three)

and_false : (a : Bool) {b : Bool} → b ≡ false → (a && b) ≡ false
and_false true e = e
and_false false e = refl

to_load-nil : (c : ReadCtx) → c.bytes_left < 1 → to_load c ≡ []
unfolding strip slice
to_load-nil c h =
    let none_left : c.bytes_left ≡ 0 = omega arith in
    elim (Bool-cases c.detects) [ inl on ↦ rw (on, none_left) | inr off ↦ rw (off, none_left) ]

skip_IsReading : {c : ReadCtx} → IsReading c → IsReading (skip_emulation c)
unfolding skip_emulation
skip_IsReading v = record { memory = v.memory; few = v.few; small = v.small }

skip_load :
    (c : ReadCtx)
    → IsReading c
    → 0 < c.bytes_left
    → is_emulation c ≡ true
    → 0 < (skip_emulation c).bytes_left
    → Loads c (load_byte (skip_emulation c))
skip_load c v h e more =
    let fresh : ((run_of (skip_emulation c).prev_two_bytes == 2)
          && ((skip_emulation c).mem (skip_emulation c).next == 3))
        ≡ false =
      unfold skip_emulation in refl in
    let next = load_lem (skip_emulation c) (skip_IsReading v) more (and_false _ fresh) in
    record {
      loaded = skip_loads c h (sym (emulation_test c) ∙ e) ∙ next.loaded;
      full = next.full;
      reading = next.reading;
      used_kept = next.used_kept ∙ unfold skip_emulation in refl;
      fewer = unfold skip_emulation in omega (arith, next.fewer);
    }

-- update_curbyte fails exactly if no byte is left to be loaded, and loads the next one else.
pub update_cases :
    (c : ReadCtx)
    → IsReading c
    → ((update_curbyte c).0 ≡ err_read_bit) × (to_load c ≡ [])
      ⊎ ((update_curbyte c).0 ≡ ok) × Loads c (update_curbyte c).1
unfolding update_curbyte
update_cases c v = elim (Bool-cases (ltb c.bytes_left 1)) [
  | inl short ↦ rw short (inl (refl, to_load-nil c (ground arith)))
  | inr more ↦
      let some_left : 0 < c.bytes_left = ground arith in
      rw more (elim (Bool-cases (is_emulation c)) [
        | inl e ↦ rw e (elim (Bool-cases (ltb (skip_emulation c).bytes_left 1)) [
          | inl short ↦ rw short (
              inl (
                refl,
                skip_loads c some_left (sym (emulation_test c) ∙ e)
                    ∙ to_load-nil (skip_emulation c) (ground arith),
              ))
          | inr left ↦ rw left (inr (refl, skip_load c v some_left e (ground arith)))
        ])
        | inr e ↦ rw e (inr (refl, load_lem c v some_left (sym (emulation_test c) ∙ e)))
      ])
]
