-- ===== src/H264/Nal.antt =====
-- A NAL unit in a packet: its start code and header, and its fields behind them, as a reader finds
-- them.
use mathlib.Core.Path.{fun_ext}
use rockchip_kmpp.Prelude.{
  ℕ, zero, suc, ◌+◌, ◌-◌, ◌*◌, ◌^◌, ◌≤◌, ◌<◌, ◌≡◌, refl, sym, ap, ap₂, ◌∙◌, List, [], ◌∷◌, ◌++◌,
  map, length, arith, ltb, false, true, some,
}
use rockchip_kmpp.Prelude.Word.{slice}
use rockchip_kmpp.BitWriter.{WriteCtx, init, trailing, bytes}
use rockchip_kmpp.BitWriter.Raw.{IsType, Started, start-Started}
use rockchip_kmpp.BitWriter.Bytes.{Below, Below-kept, trailing-kept}
use rockchip_kmpp.BitReader.{ReadCtx, set_bitread_ctx, set_pre_detection}
use rockchip_kmpp.BitReader.Items.{Item, coding, value, IsItem, All, put_items, get_items}
use rockchip_kmpp.BitReader.Trip.{reader, put_items-kept, closed_items, closed_size}
use rockchip_kmpp.H264.Packet.{Packet, free_at, buf_size, close_writer}
use rockchip_kmpp.H264.Chain.{start_nal}

-- A reader of what `q` holds more than `p`, less the start code and the header.
abbrev pub nal_reader : Packet → Packet → ReadCtx
nal_reader p q =
    set_pre_detection (set_bitread_ctx (λ i. q.mem (free_at p + 5 + i)) (q.length - p.length - 5))

-- `q` is `p` with a NAL unit of the type behind it that holds the fields.
pub record Holds (p q : Packet) (type : ℕ) (is : List Item) : Type 0 where
  pub head : slice q.mem (free_at p) 5 ≡ 0 ∷ 0 ∷ 0 ∷ 1 ∷ (0x60 + type) ∷ []
  pub fields : get_items (nal_reader p q) (map coding is) ≡ some (map value is)
  pub old_kept : (i : ℕ) → i < free_at p → q.mem i ≡ p.mem i
  pub longer : p.length + 5 ≤ q.length
  pub fits : q.length ≤ p.length + buf_size p

-- A packet of bytes with room for the header, twelve bytes a field and twelve more.
pub record HasRoom (p : Packet) (is : List Item) : Type 0 where
  pub octets : (i : ℕ) → p.mem i < 2 ^ 8
  pub room : 12 * length is + 17 ≤ buf_size p
  pub small : buf_size p < 2 ^ 31

slice-cong :
    (m m' : ℕ → ℕ) (s s' n : ℕ)
    → ((i : ℕ) → i < n → m (s + i) ≡ m' (s' + i))
    → slice m s n ≡ slice m' s' n
unfolding slice
slice-cong m m' s s' zero h = refl
slice-cong m m' s s' (suc n) h =
    ap₂ (λ xs x. xs ++ (x ∷ [])) (slice-cong m m' s s' n (λ i lt. h i (omega arith)))
      (h n (omega arith))

close-at :
    (p : Packet) (c : WriteCtx) (k i : ℕ)
    → (close_writer p c).mem (free_at p + k + i) ≡ c.mem (k + i)
unfolding close_writer
close-at p c k i =
    let test : ltb (free_at p + k + i) (free_at p) ≡ false = ground arith in
    rw test (ap c.mem (omega arith))

close_old : (p : Packet) (c : WriteCtx) (i : ℕ) → i < free_at p → (close_writer p c).mem i ≡ p.mem i
unfolding close_writer
close_old p c i h = let test : ltb i (free_at p) ≡ true = ground arith in rw test

module _ (p : Packet) (type : ℕ) (is : List Item) (t : IsType type) (h : All IsItem is)
    (r : HasRoom p is) where
  abbrev window : ℕ → ℕ
  window i = p.mem (free_at p + i)

  abbrev begun : WriteCtx
  begun = start_nal type (init window (buf_size p)).1

  abbrev closed : WriteCtx
  closed = trailing (put_items begun is)

  begun-Started : Started window (buf_size p) type begun
  begun-Started = start-Started window (buf_size p) type t (omega (arith, r.room)) r.small

  room_left : begun.byte_cnt + 12 * length is + 12 ≤ begun.size
  room_left = omega (arith, begun-Started.count, begun-Started.size_kept, r.room)

  head_kept : slice closed.mem 0 5 ≡ 0 ∷ 0 ∷ 0 ∷ 1 ∷ (0x60 + type) ∷ []
  head_kept =
      let s = begun-Started in
      let below = trailing-kept (Below begun.mem 5) (Below-kept begun.mem 5) (put_items begun is) (
        put_items-kept (Below begun.mem 5) (Below-kept begun.mem 5) begun is
          (s.writing.memory.begun, λ i lt. refl)) in
      slice-cong closed.mem begun.mem 0 0 5 (λ i lt. below.1 (0 + i) (omega arith)) ∙ s.head

  length_of :
      bytes closed ≡ closed.stream → (close_writer p closed).length ≡ p.length + closed.stream
  unfolding close_writer
  length_of e = ap (λ (n : ℕ). p.length + n) e

  same_reader :
      (close_writer p closed).length - p.length - 5 ≡ closed.stream - 5
      → nal_reader p (close_writer p closed) ≡ reader 5 closed
  same_reader e =
      ap₂ (λ m (n : ℕ). set_pre_detection (set_bitread_ctx m n))
        (fun_ext (λ i. close-at p closed 5 i)) e

  -- The unit, as it is closed.
  pub nal_lem : Holds p (close_writer p closed) type is
  nal_lem =
      let s = begun-Started in
      let size = closed_size 5 begun is s.writing h room_left in
      let total : bytes closed ≡ closed.stream = unfold bytes in ground (arith, size.0, size.1) in
      let whole = length_of total in
      let shown : closed.stream - 5 ≡ (close_writer p closed).length - p.length - 5 =
        omega (arith, whole) in
      record {
        head =
            slice-cong (close_writer p closed).mem closed.mem (free_at p) 0 5
              (λ i lt. ap (close_writer p closed).mem (omega arith) ∙ close-at p closed 0 i)
            ∙ head_kept;
        fields =
            ap (λ r. get_items r (map coding is)) (same_reader (sym shown))
            ∙ closed_items 5 begun is s.writing s.empty (s.bytes (λ i. r.octets (free_at p + i))) h
                room_left;
        old_kept = close_old p closed;
        longer = omega (arith, whole, size.2);
        fits = omega (arith, whole, size.1, size.3, s.count, r.room);
      }
