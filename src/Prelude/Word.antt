-- ===== src/Prelude/Word.antt =====
-- Casts to the fixed widths, the digits of a number, and memory as a function of the address.
use native.Mathlib.Nat.{pow-suc, mul_assoc, add-suc, add-zero}
use rockchip_kmpp.Prelude.{
  ℕ, zero, suc, ◌+◌, ◌*◌, ◌/◌, ◌%◌, ◌^◌, ◌≤◌, ◌<◌, ◌≡◌, refl, ap, ap₂, List, [], ◌∷◌, ◌++◌,
  append_assoc, append-nil, arith, ◌==◌, if◌then◌else◌,
}

abbrev pub u8 : ℕ → ℕ
u8 n = n % 2 ^ 8

abbrev pub u32 : ℕ → ℕ
u32 n = n % 2 ^ 32

-- The `k` lowest binary digits of `v`, the highest first.
unfoldable pub to_bits : ℕ → ℕ → List ℕ
to_bits zero v = []
to_bits (suc k) v = to_bits k (v / 2) ++ (v % 2 ∷ [])

pub pow_add : (a b : ℕ) → 2 ^ (a + b) ≡ 2 ^ a * 2 ^ b
pow_add a zero = ground (arith, ap (λ (t : ℕ). 2 ^ t) (add-zero a))
pow_add a (suc b) = simp (add-suc, pow-suc, pow_add a b, mul_assoc)

-- The digits of two numbers written one behind the other.
pub to_bits-append :
    (j k q r : ℕ) → r < 2 ^ k → to_bits (j + k) (q * 2 ^ k + r) ≡ to_bits j q ++ to_bits k r
unfolding to_bits
to_bits-append j zero q r h = rw (add-zero, append-nil) (ap (λ (t : ℕ). to_bits j t) (omega arith))
to_bits-append j (suc k) q r h =
    rw (add-suc, split_two, digit, to_bits-append j k q (r / 2) (omega (arith, pow-suc 2 k)))
      (append_assoc (to_bits j q) (to_bits k (r / 2)) (r % 2 ∷ []))
  where
    doubled : q * 2 ^ suc k ≡ q * 2 ^ k * 2
    doubled = omega (arith, ap (λ (t : ℕ). q * t) (pow-suc 2 k))

    split_two : (q * 2 ^ suc k + r) / 2 ≡ q * 2 ^ k + r / 2
    split_two = omega (arith, doubled)

    digit : (q * 2 ^ suc k + r) % 2 ≡ r % 2
    digit = omega (arith, doubled)

-- A write to memory.
abbrev pub update {ℓ} : {A : Type ℓ} → (ℕ → A) → ℕ → A → ℕ → A
update m i v j = if i == j then v else m j

-- The `n` cells from address `s` on.
unfoldable pub slice {ℓ} : {A : Type ℓ} → (ℕ → A) → ℕ → ℕ → List A
slice m s zero = []
slice m s (suc n) = slice m s n ++ (m (s + n) ∷ [])

-- A write behind the slice leaves it alone.
pub slice-update {ℓ} :
    {A : Type ℓ} (m : ℕ → A) (s n i : ℕ) (v : A)
    → s + n ≤ i
    → slice (update m i v) s n ≡ slice m s n
unfolding slice
slice-update m s zero i v h = refl
slice-update m s (suc n) i v h =
    ap₂ (λ xs x. xs ++ (x ∷ [])) (slice-update m s n i v (omega arith)) (ground arith)
