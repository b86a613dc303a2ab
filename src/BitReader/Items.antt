-- ===== src/BitReader/Items.antt =====
-- Sequences of header fields: how they are written one after the other, and how they are read.
use native.Mathlib.Decide.{dec_lt}
use rockchip_kmpp.Prelude.{
  ℕ, zero, suc, ◌+◌, ◌-◌, ◌*◌, ◌^◌, ◌≤◌, ◌<◌, ◌≡◌, refl, sym, ap, ◌∙◌, List, [], ◌∷◌, ◌++◌, map,
  append_assoc, append-nil, arith, if◌then◌else◌, Option, none, some, length,
}
use rockchip_kmpp.Prelude.Maybe.{◌>>=◌}
use rockchip_kmpp.Prelude.Ret.{is_err}
use rockchip_kmpp.Prelude.Word.{to_bits}
use rockchip_kmpp.BitWriter.{WriteCtx, put_bits, put_ue, count_bits}
use rockchip_kmpp.BitWriter.Payload.{payload, IsWriting}
use rockchip_kmpp.BitWriter.Put.{Says, put_bits-Says, Says-then, Says-weaken}
use rockchip_kmpp.BitWriter.Golomb.{HasWidth, ue_code, count_bits_lem, put_ue-Says}
use rockchip_kmpp.BitReader.{ReadCtx, read_bits, read_ue}
use rockchip_kmpp.BitReader.Unread.{unread, IsReading}
use rockchip_kmpp.BitReader.Bits.{read_bits-digits}
use rockchip_kmpp.BitReader.Golomb.{read_ue-code}

-- How a field is coded: so many bits, or an Exp-Golomb code word.
pub data Coding : Type 0 where
  bits : ℕ → Coding
  ue : Coding

abbrev pub Item : Type 0
Item = Coding × ℕ

abbrev pub coding : Item → Coding
coding i = i.0

abbrev pub value : Item → ℕ
value i = i.1

-- The values that the writer takes.
abbrev pub IsItem : Item → Type 0
IsItem (bits n, v) = (n ≤ 24) × (v < 2 ^ n)
IsItem (ue, v) = v + 1 < 2 ^ 24

abbrev pub All {ℓ κ} : {A : Type ℓ} → (A → Type κ) → List A → Type κ
All P [] = Unit {κ}
All P (x ∷ xs) = P x × All P xs

abbrev pub put_item : WriteCtx → Item → WriteCtx
put_item c (bits n, v) = put_bits c v n
put_item c (ue, v) = put_ue c v

unfoldable pub put_items : WriteCtx → List Item → WriteCtx
put_items c [] = c
put_items c (i ∷ is) = put_items (put_item c i) is

-- The fields of the given codings; `none` if one cannot be read.
unfoldable pub get_items : ReadCtx → List Coding → Option (List ℕ)
get_items c [] = some []
get_items c (bits n ∷ ks) = do
  let r = read_bits c n
  v ← (if is_err r.0 then none else some r.2)
  vs ← get_items r.1 ks
  some (v ∷ vs)
get_items c (ue ∷ ks) = do
  (ret, c', v) ← read_ue c 0
  v' ← (if is_err ret then none else some v)
  vs ← get_items c' ks
  some (v' ∷ vs)

-- The digits of a field.
unfoldable pub digits : Item → List ℕ
digits (bits n, v) = to_bits n v
digits (ue, v) = ue_code (count_bits 32 (v + 1) 0) v

unfoldable pub all_digits : List Item → List ℕ
all_digits [] = []
all_digits (i ∷ is) = digits i ++ all_digits is

-- A number has a width.
pub width_of : (k v : ℕ) → 0 < v → v < 2 ^ k → (n : ℕ) × HasWidth n v × (n ≤ k)
width_of zero v h below = absurd (omega arith)
width_of (suc k) v h below = elim (dec_lt v (2 ^ k)) [
  | yes less ↦ let (n, w, small) = width_of k v h less in (n, w, omega arith)
  | no top ↦
      let same : suc k - 1 ≡ k = omega arith in
      (
        suc k,
        record { some_digits = omega arith; low = rw same (omega arith); high = below },
        omega arith,
      )
]

put_item-Says :
    (s : ℕ) (c : WriteCtx) (i : Item)
    → IsWriting s c
    → IsItem i
    → c.byte_cnt + 10 ≤ c.size
    → Says s c (put_item c i) (payload s c ++ digits i) (c.byte_cnt + 12)
unfolding digits
put_item-Says s c (bits n, v) w (few, small) room =
    Says-weaken refl (omega arith) (put_bits-Says s c v n w few small (omega arith))
put_item-Says s c (ue, v) w small room =
    let (n, d, few) = width_of 24 (v + 1) (omega arith) small in
    let same = count_bits_lem n (v + 1) d (omega arith) in
    rw same (put_ue-Says s c v n w d few room)

-- Fields written in a row are what a reader of the section sees.
pub put_items-Says :
    (s : ℕ) (c : WriteCtx) (is : List Item)
    → IsWriting s c
    → All IsItem is
    → c.byte_cnt + 12 * length is ≤ c.size
    → Says s c (put_items c is) (payload s c ++ all_digits is) (c.byte_cnt + 12 * length is)
unfolding put_items all_digits
put_items-Says s c [] w h room = record {
  writing = w;
  says = sym (append-nil (payload s c));
  used = omega arith;
  size_kept = refl;
}
put_items-Says s c (i ∷ is) w h room =
    let first = put_item-Says s c i w (h.0) (omega arith) in
    Says-weaken refl (omega arith) (
      Says-then (12 * length is) (payload s c) (digits i) (all_digits is) first (
        put_items-Says s (put_item c i) is first.writing (h.1)
          (omega (arith, first.used, first.size_kept))))

-- Where the unread digits begin with those of fields, the fields are read.
pub get_items_lem :
    (c : ReadCtx) (is : List Item) (rest : List ℕ)
    → IsReading c
    → All IsItem is
    → unread c ≡ all_digits is ++ rest
    → get_items c (map coding is) ≡ some (map value is)
unfolding get_items all_digits digits
get_items_lem c [] rest v h e = refl
get_items_lem c ((bits n, w) ∷ is) rest v h e =
    let t =
      read_bits-digits n w (all_digits is ++ rest) c v (omega (arith, h.0.0)) (h.0.1)
        (e ∙ append_assoc (to_bits n w) (all_digits is) rest) in
    rw (t.0, t.1, get_items_lem (read_bits c n).1 is rest t.3 (h.1) t.2)
get_items_lem c ((ue, w) ∷ is) rest v h e =
    let (n, d, few) = width_of 24 (w + 1) (omega arith) (h.0) in
    let same = count_bits_lem n (w + 1) d (omega arith) in
    let t = read_ue-code n w 0 (all_digits is ++ rest) c v d (omega arith) (
      e
      ∙ ap (λ (m : ℕ). (ue_code m w ++ all_digits is) ++ rest) same
      ∙ append_assoc (ue_code n w) (all_digits is) rest) in
    rw (t.1, get_items_lem t.0 is rest t.3 (h.1) t.2)
