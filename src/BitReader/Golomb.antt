-- ===== src/BitReader/Golomb.antt =====
-- mpp_read_ue ends, and reads the Exp-Golomb code words.
use native.Mathlib.Nat.{one-le-pow, pow-le-pow_right, mod-eq_of_lt, pow-suc}
use rockchip_kmpp.Prelude.{
  ℕ, zero, suc, ◌+◌, ◌-◌, ◌*◌, ◌^◌, ◌≤◌, ◌<◌, ◌≡◌, refl, sym, ap, ap₂, ◌∙◌, List, [], ◌∷◌, ◌++◌,
  append_assoc, arith, true, false, ltb, ◌==◌, if◌then◌else◌, Bool-cases, some, inl, inr, length,
  length-append,
}
use rockchip_kmpp.Prelude.Ret.{Ret, ok, err_read_bit, is_err}
use rockchip_kmpp.Prelude.Word.{u32, to_bits, to_bits-append, slice}
use rockchip_kmpp.BitWriter.Escape.{octets}
use rockchip_kmpp.BitWriter.Golomb.{HasWidth, ue_code}
use rockchip_kmpp.BitReader.{ReadCtx, Reading, read_bits, zeros_loop, ue_rest, read_ue}
use rockchip_kmpp.BitReader.Digits.{length-to_bits}
use rockchip_kmpp.BitReader.Unread.{unread, to_load, window, strip, run_after, run_of, IsReading}
use rockchip_kmpp.BitReader.Bits.{read_bits_lem, read_bits-digits}

length-octets : (xs : List ℕ) → length (octets xs) ≡ length xs * 8
unfolding octets
length-octets [] = refl
length-octets (x ∷ xs) =
    omega (arith, length-append (to_bits 8 x) (octets xs), length-to_bits 8 x, length-octets xs)

length-strip : (n : ℕ) (xs : List ℕ) → length (strip n xs) ≤ length xs
unfolding strip
length-strip n [] = omega arith
length-strip n (x ∷ xs) = ground (arith, length-strip (run_after n x) xs)

length-slice : (m : ℕ → ℕ) (s n : ℕ) → length (slice m s n) ≡ n
unfolding slice
length-slice m s zero = refl
length-slice m s (suc n) =
    omega (arith, length-append (slice m s n) (m (s + n) ∷ []), length-slice m s n)

-- A reader holds no more digits than its bits.
pub length-unread_le : (c : ReadCtx) → length (unread c) ≤ c.remaining + c.bytes_left * 8
length-unread_le c =
    let loads : length (to_load c) ≤ c.bytes_left = elim (Bool-cases c.detects) [
      | inl on ↦ rw on (
          omega (
            arith,
            length-strip (run_of c.prev_two_bytes) (window c),
            length-slice c.mem c.next c.bytes_left,
          ))
      | inr off ↦ rw off (omega (arith, length-slice c.mem c.next c.bytes_left))
    ] in
    omega (
      arith,
      length-append (to_bits c.remaining c.curr_byte) (octets (to_load c)),
      length-to_bits c.remaining c.curr_byte,
      length-octets (to_load c),
    )

zeros_loop-total :
    (fuel k : ℕ) (c : ReadCtx)
    → IsReading c
    → length (unread c) < fuel
    → (r : Ret × ReadCtx × ℕ) × (zeros_loop fuel c k ≡ some r)
unfolding zeros_loop
zeros_loop-total zero k c v h = absurd (omega arith)
zeros_loop-total (suc fuel) k c v h =
    let r = read_bits c 1 in
    elim (read_bits_lem 1 c v) [
      | inr (why, bad) ↦ ((err_read_bit, r.1, k), rw bad)
      | inl (narrow, enough, t) ↦
          let size = sym (length-append (to_bits 1 r.2) (unread r.1)) ∙ ap length t.digits in
          elim (Bool-cases (r.2 == 0)) [
            | inl more ↦
                rw (t.done, more)
                  (zeros_loop-total fuel (k + 1) r.1 t.reading
                    (omega (arith, length-to_bits 1 r.2)))
            | inr found ↦ ((ok, r.1, k), rw (t.done, found))
          ]
    ]

-- On a reader in order the loop of mpp_read_ue ends, so that mpp_read_ue returns.
pub read_ue-total : (c : ReadCtx) (old : ℕ) → IsReading c → (r : Reading) × (read_ue c old ≡ some r)
unfolding read_ue
read_ue-total c old v =
    let fuel = suc (c.remaining + c.bytes_left * 8) in
    let (r, e) = zeros_loop-total fuel 0 c v (omega (arith, length-unread_le c)) in
    ((if is_err r.0 then (err_read_bit, r.1, old) else ue_rest r.1 r.2 old), rw e)

zeros-cons : (m : ℕ) → to_bits (suc m) 0 ≡ 0 ∷ to_bits m 0
unfolding to_bits
zeros-cons zero = refl
zeros-cons (suc m) = ap (λ xs. xs ++ (0 ∷ [])) (zeros-cons m)

-- The first digit of a number of a given width.
top_digit : (n v : ℕ) → HasWidth n v → to_bits n v ≡ 1 ∷ to_bits (n - 1) (v - 2 ^ (n - 1))
unfolding to_bits
top_digit n v w =
    let length_is : n ≡ 1 + (n - 1) = omega (arith, w.some_digits) in
    let parts : v ≡ 1 * 2 ^ (n - 1) + (v - 2 ^ (n - 1)) = omega (arith, w.low) in
    let double : 2 ^ n ≡ 2 ^ (n - 1) * 2 =
      ap (λ (t : ℕ). 2 ^ t) {x = n} {y = suc (n - 1)} (omega (arith, w.some_digits))
      ∙ pow-suc 2 (n - 1) in
    ap₂ (λ (a b : ℕ). to_bits a b) length_is parts
    ∙ to_bits-append 1 (n - 1) 1 (v - 2 ^ (n - 1)) (omega (arith, w.high))

zeros_loop_lem :
    (fuel m k : ℕ) (rest : List ℕ) (c : ReadCtx)
    → m < fuel
    → IsReading c
    → unread c ≡ to_bits m 0 ++ (1 ∷ rest)
    → (c' : ReadCtx) × (zeros_loop fuel c k ≡ some (ok, c', k + m))
      × (unread c' ≡ rest)
      × IsReading c'
unfolding zeros_loop to_bits
zeros_loop_lem zero m k rest c h v e = absurd (omega arith)
zeros_loop_lem (suc fuel) zero k rest c h v e =
    let t = read_bits-digits 1 1 rest c v (omega arith) (omega arith) e in
    let r = read_bits c 1 in
    (r.1, rw (t.0, t.1) (ap (λ (m : ℕ). some (ok, r.1, m)) (omega arith)), t.2, t.3)
zeros_loop_lem (suc fuel) (suc m) k rest c h v e =
    let e' = e ∙ ap (λ xs. xs ++ (1 ∷ rest)) (zeros-cons m) in
    let t = read_bits-digits 1 0 (to_bits m 0 ++ (1 ∷ rest)) c v (omega arith) (omega arith) e' in
    let (c', found, left, v') =
      zeros_loop_lem fuel m (k + 1) rest (read_bits c 1).1 (omega arith) t.3 t.2 in
    (c', rw (t.0, t.1) (found ∙ ap (λ (n : ℕ). some (ok, c', n)) (omega arith)), left, v')

ue_rest_lem :
    (m low old : ℕ) (rest : List ℕ) (c : ReadCtx)
    → IsReading c
    → m ≤ 31
    → low < 2 ^ m
    → unread c ≡ to_bits m low ++ rest
    → (c' : ReadCtx) × (ue_rest c m old ≡ (ok, c', 2 ^ m - 1 + low))
      × (unread c' ≡ rest)
      × IsReading c'
unfolding ue_rest to_bits
ue_rest_lem zero low old rest c v h small e =
    let nothing : low ≡ 0 = omega arith in (c, ap (λ (t : ℕ). (ok, c, t)) (omega arith), e, v)
ue_rest_lem (suc m) low old rest c v h small e =
    let t = read_bits-digits (suc m) low rest c v h small e in
    let quiet : ltb 31 (suc m) ≡ false = ground arith in
    let some_left : ltb 0 (suc m) ≡ true = ground arith in
    let below : 2 ^ suc m ≤ 2 ^ 31 = pow-le-pow_right (omega arith) h in
    let plain : u32 (2 ^ suc m - 1 + low) ≡ 2 ^ suc m - 1 + low = mod-eq_of_lt (omega arith) in
    ((read_bits c (suc m)).1, rw (quiet, some_left, t.0, t.1, plain), t.2, t.3)

read_ue-from :
    (c : ReadCtx) {c' : ReadCtx} (m old : ℕ)
    → zeros_loop (suc (c.remaining + c.bytes_left * 8)) c 0 ≡ some (ok, c', m)
    → read_ue c old ≡ some (ue_rest c' m old)
unfolding read_ue
read_ue-from c m old e = rw e

-- Where the unread digits begin with the Exp-Golomb code word of a number v, and v + 1 has up to 32
-- digits, mpp_read_ue on a reader in order gives v and leaves the digits behind the word.
pub read_ue-code :
    (n v old : ℕ) (rest : List ℕ) (c : ReadCtx)
    → IsReading c
    → HasWidth n (v + 1)
    → n ≤ 32
    → unread c ≡ ue_code n v ++ rest
    → (c' : ReadCtx) × (read_ue c old ≡ some (ok, c', v)) × (unread c' ≡ rest) × IsReading c'
read_ue-code n v old rest c r w h e =
    let m = n - 1 in
    let low = v + 1 - 2 ^ m in
    let double : 2 ^ n ≡ 2 ^ m * 2 =
      ap (λ (t : ℕ). 2 ^ t) {x = n} {y = suc m} (omega (arith, w.some_digits)) ∙ pow-suc 2 m in
    let spelt : unread c ≡ to_bits m 0 ++ (1 ∷ (to_bits m low ++ rest)) =
      e
      ∙ append_assoc (to_bits m 0) (to_bits n (v + 1)) rest
      ∙ ap (λ xs. to_bits m 0 ++ (xs ++ rest)) (top_digit n (v + 1) w) in
    let size = ap length spelt ∙ length-append (to_bits m 0) (1 ∷ (to_bits m low ++ rest)) in
    let fuel = suc (c.remaining + c.bytes_left * 8) in
    let zeros =
      zeros_loop_lem fuel m 0 (to_bits m low ++ rest) c
        (omega (arith, length-unread_le c, length-to_bits m 0)) r spelt in
    let value =
      ue_rest_lem m low old rest zeros.0 zeros.3 (omega arith) (omega (arith, w.high)) zeros.2 in
    let sum : 2 ^ m - 1 + low ≡ v = omega (arith, w.low, one-le-pow m 2) in
    (
      value.0,
      read_ue-from c m old (zeros.1 ∙ ap (λ (t : ℕ). some (ok, zeros.0, t)) (omega arith))
          ∙ ap some (value.1 ∙ ap (λ (t : ℕ). (ok, value.0, t)) sum),
      value.2,
      value.3,
    )
