-- ===== src/BitReader/Digits.antt =====
-- The digits of words: how masks, shifts and words joined by `|` act on them.
use native.Mathlib.Nat.{
  add-suc, add-zero, pow-suc, div-div-eq-div-mul, mul_comm, one-le-pow, mod-lt, div-add-mod',
  mod-eq_of_lt,
}
use rockchip_kmpp.Prelude.{
  ℕ, zero, suc, ◌+◌, ◌-◌, ◌*◌, ◌/◌, ◌%◌, ◌^◌, ◌≤◌, ◌<◌, ◌≡◌, refl, sym, ap, ◌∙◌, List, [], ◌∷◌,
  ◌++◌, append_assoc, append-nil, arith, bit_or, bit_and, length, length-append,
}
use rockchip_kmpp.Prelude.Word.{u32, to_bits, pow_add}
use rockchip_kmpp.Prelude.Bits.{or-disjoint, and-mask}

pub length-to_bits : (k v : ℕ) → length (to_bits k v) ≡ k
unfolding to_bits
length-to_bits zero v = refl
length-to_bits (suc k) v =
    omega (arith, length-append (to_bits k (v / 2)) (v % 2 ∷ []), length-to_bits k (v / 2))

-- The high digits of a number and its low ones.
pub to_bits-split : (j k v : ℕ) → to_bits (j + k) v ≡ to_bits j (v / 2 ^ k) ++ to_bits k v
unfolding to_bits
to_bits-split j zero v = rw (add-zero, append-nil) (ap (λ (t : ℕ). to_bits j t) (omega arith))
to_bits-split j (suc k) v =
    let quotient : v / 2 / 2 ^ k ≡ v / 2 ^ suc k =
      div-div-eq-div-mul v 2 (2 ^ k)
      ∙ ap (λ (t : ℕ). v / t) (mul_comm 2 (2 ^ k) ∙ sym (pow-suc 2 k)) in
    rw (add-suc, to_bits-split j k (v / 2), quotient)
      (append_assoc (to_bits j (v / 2 ^ suc k)) (to_bits k (v / 2)) (v % 2 ∷ []))

-- Digits above the ones that are read do not count.
pub to_bits-add : (k q r : ℕ) → to_bits k (q * 2 ^ k + r) ≡ to_bits k r
unfolding to_bits
to_bits-add zero q r = refl
to_bits-add (suc k) q r =
    let doubled : q * 2 ^ suc k ≡ q * 2 ^ k * 2 =
      omega (arith, ap (λ (t : ℕ). q * t) (pow-suc 2 k)) in
    let half : (q * 2 ^ suc k + r) / 2 ≡ q * 2 ^ k + r / 2 = omega (arith, doubled) in
    let digit : (q * 2 ^ suc k + r) % 2 ≡ r % 2 = omega (arith, doubled) in
    rw (half, digit, to_bits-add k q (r / 2))

-- A power of two, split at any place.
pub pow_split : (n a b : ℕ) → n ≡ a + b → 2 ^ n ≡ 2 ^ a * 2 ^ b
pow_split n a b h = ap (λ (t : ℕ). 2 ^ t) h ∙ pow_add a b

pub to_bits-mod : (k m v : ℕ) → k ≤ m → to_bits k (v % 2 ^ m) ≡ to_bits k v
to_bits-mod k m v h =
    let whole : 2 ^ m ≡ 2 ^ (m - k) * 2 ^ k = pow_split m (m - k) k (omega arith) in
    let parts : v ≡ v / 2 ^ m * 2 ^ (m - k) * 2 ^ k + v % 2 ^ m =
      omega (arith, sym (div-add-mod' v (2 ^ m)), ap (λ (t : ℕ). v / 2 ^ m * t) whole) in
    sym (ap (λ (t : ℕ). to_bits k t) parts ∙ to_bits-add k (v / 2 ^ m * 2 ^ (m - k)) (v % 2 ^ m))

-- A word that is masked to the digits which are read.
pub to_bits-mask : (k v : ℕ) → to_bits k (bit_and v (2 ^ k - 1)) ≡ to_bits k v
to_bits-mask k v = ap (λ (t : ℕ). to_bits k t) (and-mask k v) ∙ to_bits-mod k k v (omega arith)

-- The value of digits.
abbrev pub of_bits : ℕ → List ℕ → ℕ
of_bits acc [] = acc
of_bits acc (b ∷ bs) = of_bits (acc * 2 + b) bs

of_bits-append : (acc : ℕ) (xs ys : List ℕ) → of_bits acc (xs ++ ys) ≡ of_bits (of_bits acc xs) ys
of_bits-append acc [] ys = refl
of_bits-append acc (x ∷ xs) ys = of_bits-append (acc * 2 + x) xs ys

of_bits-to_bits : (k v : ℕ) → v < 2 ^ k → of_bits 0 (to_bits k v) ≡ v
unfolding to_bits
of_bits-to_bits zero v h = omega arith
of_bits-to_bits (suc k) v h =
    let below : v / 2 < 2 ^ k = omega (arith, pow-suc 2 k) in
    rw (of_bits-append 0 (to_bits k (v / 2)) (v % 2 ∷ []), of_bits-to_bits k (v / 2) below)
      (omega arith)

-- Numbers with the same digits are the same.
pub to_bits-inj : (k v w : ℕ) → v < 2 ^ k → w < 2 ^ k → to_bits k v ≡ to_bits k w → v ≡ w
to_bits-inj k v w h h' e =
    sym (of_bits-to_bits k v h) ∙ ap (λ t. of_bits 0 t) e ∙ of_bits-to_bits k w h'

-- Parts of equal length of one list are the same.
pub append-cancel {ℓ} :
    {A : Type ℓ} (xs ys us vs : List A)
    → length xs ≡ length ys
    → xs ++ us ≡ ys ++ vs
    → (xs ≡ ys) × (us ≡ vs)
append-cancel [] [] us vs h e = (refl, e)
append-cancel [] (y ∷ ys) us vs h e = absurd (omega arith)
append-cancel (x ∷ xs) [] us vs h e = absurd (omega arith)
append-cancel (x ∷ xs) (y ∷ ys) us vs h e =
    let rest = append-cancel xs ys us vs (omega arith) (cc) in (cc (rest.0), rest.1)

shift_left : (e m v : ℕ) → e + m ≡ 32 → u32 (v * 2 ^ e) ≡ v % 2 ^ m * 2 ^ e
shift_left e m v h =
    let whole : 2 ^ 32 ≡ 2 ^ m * 2 ^ e = pow_split 32 m e (omega arith) in
    let one : 1 ≤ 2 ^ e = one-le-pow e 2 (omega arith) in
    let below : v % 2 ^ m < 2 ^ m = mod-lt v (one-le-pow m 2 (omega arith)) in
    let parts : v ≡ v / 2 ^ m * 2 ^ m + v % 2 ^ m = sym (div-add-mod' v (2 ^ m)) in
    let small : v % 2 ^ m * 2 ^ e < 2 ^ m * 2 ^ e = grind arith in
    let spread : v * 2 ^ e ≡ v / 2 ^ m * (2 ^ m * 2 ^ e) + v % 2 ^ m * 2 ^ e =
      ap (λ (t : ℕ). t * 2 ^ e) parts ∙ grind arith in
    omega (arith, ap (λ (t : ℕ). v / 2 ^ m * t) whole)

-- What is left of a byte, shifted to the top of an empty word.
pub first_part :
    (r e v : ℕ) → r + e ≤ 32 → (q : ℕ) × (u32 (v * 2 ^ e) ≡ q * 2 ^ e) × (to_bits r q ≡ to_bits r v)
first_part r e v h = (
  v % 2 ^ (32 - e),
  shift_left e (32 - e) v (omega arith),
  to_bits-mod r (32 - e) v (omega arith),
)

-- A byte or'ed in behind the digits that stand in the word.
pub next_part :
    (r e q v : ℕ)
    → q * 2 ^ (r + e) < 2 ^ 32
    → r + e ≤ 32
    → v < 2 ^ r
    → u32 (bit_or (q * 2 ^ (r + e)) (v * 2 ^ e)) ≡ (q * 2 ^ r + v) * 2 ^ e
next_part r e q v h k below =
    let one : 1 ≤ 2 ^ e = one-le-pow e 2 (omega arith) in
    let total : 2 ^ (r + e) ≡ 2 ^ r * 2 ^ e = pow_add r e in
    let small : v * 2 ^ e < 2 ^ r * 2 ^ e = grind arith in
    let spread : q * 2 ^ (r + e) ≡ q * 2 ^ r * 2 ^ e = omega (arith, ap (λ (t : ℕ). q * t) total) in
    let whole : 2 ^ 32 ≡ 2 ^ (32 - (r + e)) * 2 ^ (r + e) =
      pow_split 32 (32 - (r + e)) (r + e) (omega arith) in
    let few : q < 2 ^ (32 - (r + e)) = grind (arith, one-le-pow (r + e) 2) in
    let fits : q * 2 ^ (r + e) + v * 2 ^ e < 2 ^ 32 = grind arith in
    rw (or-disjoint (r + e) q (v * 2 ^ e) (omega arith), mod-eq_of_lt fits) (omega arith)
