-- ===== src/BitWriter/Escape.antt =====
-- The byte stream format of Annex B, which a reader of the headers relies on: a byte 3 behind two
-- zero bytes is dropped, and no byte below 3 stands behind two zero bytes.
use rockchip_kmpp.Prelude.{
  ℕ, ◌+◌, ◌≤◌, ◌≡◌, refl, ap, ◌∙◌, sym, List, [], ◌∷◌, ◌++◌, append_assoc, ◌&&◌, ◌==◌,
  if◌then◌else◌,
}
use rockchip_kmpp.Prelude.Word.{to_bits}

-- The zero bytes in a row, after one more byte.
abbrev pub zeros_after : ℕ → ℕ → ℕ
zeros_after z b = if b == 0 then z + 1 else 0

unfoldable pub zeros : ℕ → List ℕ → ℕ
zeros z [] = z
zeros z (b ∷ bs) = zeros (zeros_after z b) bs

-- What a reader keeps of a byte behind `z` zero bytes.
abbrev pub kept : ℕ → ℕ → List ℕ
kept z b = if (z == 2) && (b == 3) then [] else b ∷ []

-- The bytes that a reader takes from a section.
unfoldable pub unescape : ℕ → List ℕ → List ℕ
unescape z [] = []
unescape z (b ∷ bs) = kept z b ++ unescape (zeros_after z b) bs

-- No start code, and nothing else that Annex B forbids, stands in the section.
abbrev pub IsLegal : ℕ → List ℕ → Type 0
IsLegal z [] = Unit {0}
IsLegal z (b ∷ bs) = (2 ≤ z → 3 ≤ b) × IsLegal (zeros_after z b) bs

-- The digits of bytes.
unfoldable pub octets : List ℕ → List ℕ
octets [] = []
octets (b ∷ bs) = to_bits 8 b ++ octets bs

pub zeros-append : (z : ℕ) (xs ys : List ℕ) → zeros z (xs ++ ys) ≡ zeros (zeros z xs) ys
unfolding zeros
zeros-append z [] ys = refl
zeros-append z (x ∷ xs) ys = zeros-append (zeros_after z x) xs ys

pub unescape-append :
    (z : ℕ) (xs ys : List ℕ) → unescape z (xs ++ ys) ≡ unescape z xs ++ unescape (zeros z xs) ys
unfolding unescape zeros
unescape-append z [] ys = refl
unescape-append z (x ∷ xs) ys =
    ap (λ t. kept z x ++ t) (unescape-append (zeros_after z x) xs ys)
    ∙ sym (append_assoc (kept z x) _ _)

pub IsLegal-append :
    (z : ℕ) (xs ys : List ℕ) → IsLegal z xs → IsLegal (zeros z xs) ys → IsLegal z (xs ++ ys)
unfolding zeros
IsLegal-append z [] ys h k = k
IsLegal-append z (x ∷ xs) ys h k = (h.0, IsLegal-append (zeros_after z x) xs ys h.1 k)

pub octets-append : (xs ys : List ℕ) → octets (xs ++ ys) ≡ octets xs ++ octets ys
unfolding octets
octets-append [] ys = refl
octets-append (x ∷ xs) ys =
    ap (λ t. to_bits 8 x ++ t) (octets-append xs ys) ∙ sym (append_assoc (to_bits 8 x) _ _)
