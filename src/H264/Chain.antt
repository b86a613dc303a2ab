-- ===== src/H264/Chain.antt =====
-- Calls of the bit writer in a row, and how a NAL unit begins.
use rockchip_kmpp.Prelude.{
  ℕ, ◌≡◌, refl, sym, ap, ◌∙◌, List, [], ◌∷◌, ◌++◌, Bool, true, false, not, ◌==◌, if◌then◌else◌,
}
use rockchip_kmpp.Prelude.Int.{ℤ}
use rockchip_kmpp.BitWriter.{WriteCtx, put_bits, put_raw_bits, put_ue, put_se}
use rockchip_kmpp.BitReader.Items.{Item, bits, ue, put_items, IsItem, All}

infixl 5 ◌▸◌
abbrev pub ◌▸◌ : WriteCtx → (WriteCtx → WriteCtx) → WriteCtx
c ▸ f = f c

abbrev pub u : ℕ → ℕ → WriteCtx → WriteCtx
u v n c = put_bits c v n

abbrev pub raw : ℕ → ℕ → WriteCtx → WriteCtx
raw v n c = put_raw_bits c v n

abbrev pub e : ℕ → WriteCtx → WriteCtx
e v c = put_ue c v

abbrev pub s : ℤ → WriteCtx → WriteCtx
s v c = put_se c v

-- `if (x)` on a flag.
abbrev pub is_set : ℕ → Bool
is_set x = not (x == 0)

-- The start code and the header of a NAL unit of the highest priority.
abbrev pub start_nal : ℕ → WriteCtx → WriteCtx
start_nal type c = c ▸ raw 0 24 ▸ raw 1 8 ▸ raw 0 1 ▸ raw 3 2 ▸ raw type 5

-- Items in front of others.
pub put_items-append :
    (c : WriteCtx) (xs ys : List Item) → put_items c (xs ++ ys) ≡ put_items (put_items c xs) ys
unfolding put_items
put_items-append c [] ys = refl
put_items-append c ((bits n, v) ∷ xs) ys = put_items-append (put_bits c v n) xs ys
put_items-append c ((ue, v) ∷ xs) ys = put_items-append (put_ue c v) xs ys

-- A part of the syntax that a condition guards.
abbrev pub when : Bool → List Item → List Item
when b xs = if b then xs else []

-- A stage of the writer and the items that it writes, in front of others.
pub stage :
    (c c₁ : WriteCtx) {c₂ : WriteCtx} (xs ys : List Item)
    → c₁ ≡ put_items c xs
    → c₂ ≡ put_items c₁ ys
    → c₂ ≡ put_items c (xs ++ ys)
stage c c₁ xs ys h k = k ∙ ap (λ r. put_items r ys) h ∙ sym (put_items-append c xs ys)

pub All-append : (xs ys : List Item) → All IsItem xs → All IsItem ys → All IsItem (xs ++ ys)
All-append [] ys h k = k
All-append (x ∷ xs) ys h k = (h.0, All-append xs ys h.1 k)

pub All-when : (b : Bool) (xs : List Item) → (b ≡ true → All IsItem xs) → All IsItem (when b xs)
All-when true xs h = h refl
All-when false xs h = tt
