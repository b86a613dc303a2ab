-- ===== src/H264/Dpb/Free.antt =====
-- The first slot that none of the frames of the buffer has.
use mathlib.Core.Bool.{true≢false}
use rockchip_kmpp.Prelude.{
  ℕ, zero, suc, ◌+◌, ◌≤◌, ◌<◌, ◌≡◌, refl, sym, ◌∙◌, arith, List, [], ◌∷◌, true, false, ◌==◌,
  if◌then◌else◌, Bool-cases, Option, none, some, inl, inr,
}
use rockchip_kmpp.H264.Dpb.{is_slot, in_map, is_found}

-- How many frames have been found.
abbrev pub used : List (Option ℕ) → ℕ
used [] = 0
used (m ∷ map) = (if is_found m then 1 else 0) + used map

abbrev forget : ℕ → List (Option ℕ) → List (Option ℕ)
forget i [] = []
forget i (m ∷ map) = (if is_slot i m then none else m) ∷ forget i map

used-forget :
    (i : ℕ) (map : List (Option ℕ))
    → used (forget i map) + (if in_map i map then 1 else 0) ≤ used map
used-forget i [] = omega arith
used-forget i (none ∷ map) = ground (arith, used-forget i map)
used-forget i (some j ∷ map) = ground (arith, used-forget i map)

in_map-forget :
    (i k : ℕ) (map : List (Option ℕ)) → (i == k) ≡ false → in_map k (forget i map) ≡ in_map k map
in_map-forget i k [] ne = refl
in_map-forget i k (none ∷ map) ne = in_map-forget i k map ne
in_map-forget i k (some j ∷ map) ne = ground (arith, in_map-forget i k map ne)

-- So many slots in use are no more than the frames found.
pigeons : (n : ℕ) (map : List (Option ℕ)) → ((k : ℕ) → k < n → in_map k map ≡ true) → n ≤ used map
pigeons zero map h = omega arith
pigeons (suc n) map h =
    let rest : (k : ℕ) → k < n → in_map k (forget n map) ≡ true =
      λ k lt. in_map-forget n k map (ground arith) ∙ h k (omega arith) in
    let top : in_map n map ≡ true = h n (omega arith) in
    ground (arith, pigeons n (forget n map) rest, used-forget n map, top)

-- The first slot that no frame of the buffer has.
pub record IsFree (map : List (Option ℕ)) (c : ℕ) : Type 0 where
  pub free : in_map c map ≡ false
  pub first : (k : ℕ) → k < c → in_map k map ≡ true

next :
    (map : List (Option ℕ)) (i k : ℕ)
    → ((j : ℕ) → j < i → in_map j map ≡ true)
    → in_map i map ≡ true
    → k < i + 1
    → in_map k map ≡ true
next map i k h taken lt = elim (Bool-cases (k == i)) [
  | inl e ↦ let same : k ≡ i = ground arith in rw same taken
  | inr e ↦ h k (ground arith)
]

pub apart :
    (map : List (Option ℕ)) (i j : ℕ)
    → in_map i map ≡ false
    → in_map j map ≡ true
    → (i == j) ≡ false
apart map i j free taken = elim (Bool-cases (i == j)) [
  | inl e ↦ let same : i ≡ j = ground arith in absurd (true≢false (sym taken ∙ rw (sym same) free))
  | inr e ↦ e
]

IsFree-from :
    (map : List (Option ℕ)) (fuel i : ℕ)
    → ((k : ℕ) → k < i → in_map k map ≡ true)
    → used map < i + fuel
    → (c : ℕ) × IsFree map c
IsFree-from map zero i h lt = absurd (ground (arith, pigeons i map h))
IsFree-from map (suc fuel) i h lt = elim (Bool-cases (in_map i map)) [
  | inl taken ↦ IsFree-from map fuel (i + 1) (λ k le. next map i k h taken le) (omega arith)
  | inr free ↦ (i, record { free = free; first = h })
]

pub some-IsFree : (map : List (Option ℕ)) → (c : ℕ) × IsFree map c × (c ≤ used map)
some-IsFree map =
    let (c, free) =
      IsFree-from map (suc (used map)) 0 (λ k lt. absurd (omega (arith, lt))) (omega arith) in
    (c, free, pigeons c map free.first)
