-- ===== src/BitReader/Trip.antt =====
-- What the bit writer has written, the bit reader reads.
use rockchip_kmpp.Prelude.{
  ℕ, zero, suc, ◌+◌, ◌-◌, ◌*◌, ◌^◌, ◌≤◌, ◌<◌, ◌≡◌, refl, ap, ap₂, ◌∙◌, List, [], ◌∷◌, ◌++◌,
  append-nil, arith, map, length, some,
}
use rockchip_kmpp.Prelude.Word.{u32, to_bits, slice}
use rockchip_kmpp.BitWriter.{WriteCtx, init, put_bits, put_ue, trailing}
use rockchip_kmpp.BitWriter.Escape.{octets, unescape}
use rockchip_kmpp.BitWriter.Payload.{section, payload, IsWriting}
use rockchip_kmpp.BitWriter.Put.{init-IsWriting}
use rockchip_kmpp.BitWriter.Align.{trailing-Says}
use rockchip_kmpp.BitWriter.Bytes.{
  IsKept, IsBytes, IsBytes-kept, put_bits-kept, put_ue-kept, trailing-kept, init-IsBytes,
}
use rockchip_kmpp.BitReader.{ReadCtx, set_bitread_ctx, set_pre_detection}
use rockchip_kmpp.BitReader.Unread.{unread, IsReading, strip, strip-unescape}
use rockchip_kmpp.BitReader.Items.{
  Item, bits, ue, coding, value, IsItem, All, put_items, get_items, all_digits, put_items-Says,
  get_items_lem,
}

-- A reader of the section that a writer began at the address `s`.
abbrev pub reader : ℕ → WriteCtx → ReadCtx
reader s c = set_pre_detection (set_bitread_ctx (λ i. c.mem (s + i)) (c.stream - s))

slice-shift : (m : ℕ → ℕ) (s n : ℕ) → slice (λ i. m (s + i)) 0 n ≡ slice m s n
unfolding slice
slice-shift m s zero = refl
slice-shift m s (suc n) = ap₂ (λ xs (x : ℕ). xs ++ (m x ∷ [])) (slice-shift m s n) (omega arith)

-- With no digit pending it is to read what the writer says.
reader-unread :
    (s : ℕ) (c : WriteCtx)
    → IsWriting s c
    → c.buffered_bits ≡ 0
    → IsBytes c
    → c.stream < 2 ^ 31
    → (unread (reader s c) ≡ payload s c) × IsReading (reader s c)
unfolding set_pre_detection set_bitread_ctx to_bits
reader-unread s c w flushed bytes small =
    let size : u32 (c.stream - s) ≡ c.stream - s = omega arith in
    (
      rw (size, flushed, append-nil (octets (unescape 0 (section s c))))
          (ap octets (
            ap (strip 0) (slice-shift c.mem s (c.stream - s))
            ∙ strip-unescape 0 (section s c) (omega arith) w.memory.legal)),
      record { memory = λ i. bytes (s + i); few = omega arith; small = omega arith },
    )

-- What every call keeps, a row of them keeps.
pub put_items-kept :
    (P : WriteCtx → Type 0) (k : IsKept P) (c : WriteCtx) (is : List Item)
    → P c
    → P (put_items c is)
unfolding put_items
put_items-kept P k c [] h = h
put_items-kept P k c ((bits n, v) ∷ is) h =
    put_items-kept P k (put_bits c v n) is (put_bits-kept P k c v n h)
put_items-kept P k c ((ue, v) ∷ is) h = put_items-kept P k (put_ue c v) is (put_ue-kept P k c v h)

-- Fields written into an empty section and closed by the trailing bits are read from it.
pub closed_items :
    (s : ℕ) (c : WriteCtx) (is : List Item)
    → IsWriting s c
    → payload s c ≡ []
    → IsBytes c
    → All IsItem is
    → c.byte_cnt + 12 * length is + 12 ≤ c.size
    → get_items (reader s (trailing (put_items c is))) (map coding is) ≡ some (map value is)
closed_items s c is w empty bytes h room =
    let written = put_items-Says s c is w h (omega arith) in
    let c' = put_items c is in
    let closed =
      trailing-Says s c' written.writing (omega (arith, written.used, written.size_kept)) in
    let t = trailing c' in
    let seen =
      reader-unread s t closed.0.writing closed.1
        (trailing-kept IsBytes IsBytes-kept c' (put_items-kept IsBytes IsBytes-kept c is bytes))
        (omega (
          arith, closed.0.writing.memory.counted, closed.0.used, written.used, w.memory.size_small,
        )) in
    get_items_lem (reader s t) is (1 ∷ to_bits (7 - c'.buffered_bits) 0) seen.1 h (
      seen.0
      ∙ closed.0.says
      ∙ ap (λ xs. xs ++ (1 ∷ to_bits (7 - c'.buffered_bits) 0))
          (written.says ∙ ap (λ xs. xs ++ all_digits is) empty))

-- How far they go.
pub closed_size :
    (s : ℕ) (c : WriteCtx) (is : List Item)
    → IsWriting s c
    → All IsItem is
    → c.byte_cnt + 12 * length is + 12 ≤ c.size
    → let t = trailing (put_items c is) in
      (t.buffered_bits ≡ 0)
      × (t.byte_cnt ≡ t.stream)
      × (s ≤ t.stream)
      × (t.byte_cnt ≤ c.byte_cnt + 12 * length is + 12)
closed_size s c is w h room =
    let written = put_items-Says s c is w h (omega arith) in
    let closed =
      trailing-Says s (put_items c is) written.writing
        (omega (arith, written.used, written.size_kept)) in
    (
      closed.1,
      closed.0.writing.memory.counted,
      closed.0.writing.memory.begun,
      omega (arith, closed.0.used, written.used),
    )

-- Fields of up to 24 bits and Exp-Golomb codes of numbers below 2 ^ 24 - 1, written one after the
-- other into a new section and closed by mpp_writer_trailing, in a buffer of less than 2 GiB with
-- room for twelve bytes a field and twelve more, are what mpp_read_bits and mpp_read_ue give, in
-- that order, on a reader of the bytes that detects the emulation prevention.
pub get_items-put_items :
    (p : ℕ → ℕ) (size : ℕ) (is : List Item)
    → ((i : ℕ) → p i < 2 ^ 8)
    → size < 2 ^ 31
    → All IsItem is
    → 12 * length is + 12 ≤ size
    → let c = trailing (put_items (init p size).1 is) in
      get_items (reader 0 c) (map coding is) ≡ some (map value is)
get_items-put_items p size is bytes small h room =
    let begun = init-IsWriting p size small in
    let (kept, count, fresh) = init-IsBytes p size bytes small in
    closed_items 0 (init p size).1 is begun.1 begun.2 fresh h (omega arith)
