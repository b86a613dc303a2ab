-- ===== src/BitWriter/Payload.antt =====
-- What the bytes of a section and the pending digits say, and what one round of put_bits adds.
use rockchip_kmpp.Prelude.{
  ℕ, suc, ◌+◌, ◌-◌, ◌/◌, ◌^◌, ◌≤◌, ◌<◌, ◌≡◌, ap, ap₂, ◌∙◌, List, [], ◌∷◌, ◌++◌, append_assoc,
  append-nil, arith, ◌&&◌, ltb, ◌==◌, if◌then◌else◌, Bool-cases, inl, inr,
}
use rockchip_kmpp.Prelude.Word.{to_bits, slice, slice-update, update}
use rockchip_kmpp.BitWriter.{WriteCtx, top_byte, escaped_round}
use rockchip_kmpp.BitWriter.Step.{packed}
use rockchip_kmpp.BitWriter.Escape.{
  zeros, unescape, IsLegal, octets, zeros-append, unescape-append, IsLegal-append, octets-append,
}

-- The bytes written from address `s` on.
abbrev pub section : ℕ → WriteCtx → List ℕ
section s c = slice c.mem s (c.stream - s)

-- The digits that a reader of the section sees.
abbrev pub read_back : ℕ → WriteCtx → List ℕ
read_back s c = octets (unescape 0 (section s c))

-- The value of the pending digits.
abbrev pub pending : WriteCtx → ℕ
pending c = c.byte_buffer / 2 ^ (32 - c.buffered_bits)

-- All digits of the section, those not yet in memory included.
abbrev pub payload : ℕ → WriteCtx → List ℕ
payload s c = read_back s c ++ to_bits c.buffered_bits (pending c)

-- The memory of a writer whose escaped section began at `s`.
pub record IsSection (s : ℕ) (c : WriteCtx) : Type 0 where
  pub begun : s ≤ c.stream
  pub counted : c.byte_cnt ≡ c.stream
  pub size_small : c.size < 2 ^ 31
  pub run : c.zero_bytes ≡ zeros 0 (section s c)
  pub run_short : c.zero_bytes ≤ 2
  pub legal : IsLegal 0 (section s c)

-- With the byte buffer.
pub record IsWriting (s : ℕ) (c : WriteCtx) : Type 0 where
  pub memory : IsSection s c
  pub few : c.buffered_bits < 8
  pub packs : c.byte_buffer ≡ packed c.buffered_bits (pending c)
  pub fits : pending c < 2 ^ c.buffered_bits

section-push :
    (m : ℕ → ℕ) (s e b : ℕ)
    → s ≤ e
    → slice (update m e b) s (e + 1 - s) ≡ slice m s (e - s) ++ (b ∷ [])
unfolding slice
section-push m s e b h =
    let more : e + 1 - s ≡ suc (e - s) = omega arith in
    rw more
      (ap₂ (λ xs x. xs ++ (x ∷ [])) (slice-update m s (e - s) e b (omega arith)) (ground arith))

-- The bytes that one round writes behind `z` zero bytes.
abbrev emitted : ℕ → ℕ → List ℕ
emitted z b = if (z == 2) && ltb b 4 then 3 ∷ b ∷ [] else b ∷ []

emitted-unescape : (z b : ℕ) → z ≤ 2 → unescape z (emitted z b) ≡ b ∷ []
unfolding unescape
emitted-unescape z b h = ground arith

emitted-IsLegal : (z b : ℕ) → z ≤ 2 → IsLegal z (emitted z b)
emitted-IsLegal z b h = elim (Bool-cases ((z == 2) && ltb b 4)) [
  | inl e ↦ rw e ((λ _. omega arith), ((λ q. absurd (omega arith)), tt))
  | inr e ↦ rw e ((λ q. ground arith), tt)
]

module _ (s : ℕ) (c : WriteCtx) (byte_buffer : ℕ) (v : IsSection s c)
    (room : c.byte_cnt ≤ c.size) where
  abbrev pub b : ℕ
  b = top_byte byte_buffer

  round-section : section s (escaped_round c byte_buffer) ≡ section s c ++ emitted c.zero_bytes b
  unfolding escaped_round
  round-section = elim (Bool-cases ((c.zero_bytes == 2) && ltb b 4)) [
    | inl e ↦
        let two : c.stream + 2 ≡ c.stream + 1 + 1 = omega arith in
        rw (e, two, section-push (update c.mem c.stream 3) s (c.stream + 1) b (omega arith))
          (ap (λ xs. xs ++ (b ∷ [])) (section-push c.mem s c.stream 3 v.begun)
            ∙ append_assoc (section s c) (3 ∷ []) (b ∷ []))
    | inr e ↦ rw e (section-push c.mem s c.stream b v.begun)
  ]

  round-zeros :
      (escaped_round c byte_buffer).zero_bytes ≡ zeros c.zero_bytes (emitted c.zero_bytes b)
  unfolding escaped_round zeros
  round-zeros = ground arith

  pub round-counted :
      let c' = escaped_round c byte_buffer in
      (s ≤ c'.stream)
      × (c'.byte_cnt ≡ c'.stream)
      × (c'.byte_cnt ≤ c.byte_cnt + 2)
      × (c'.size ≡ c.size)
      × (c'.zero_bytes ≤ 2)
  unfolding escaped_round
  round-counted = ground arith

  -- A round keeps the section legal, and a reader sees eight more digits.
  pub round-IsSection : IsSection s (escaped_round c byte_buffer)
  round-IsSection =
      let n = round-counted in
      record {
        begun = n.0;
        counted = n.1;
        size_small = rw (n.3) v.size_small;
        run =
            rw (round-section, zeros-append 0 (section s c) (emitted c.zero_bytes b), ← v.run)
              round-zeros;
        run_short = n.4;
        legal = rw round-section (
            IsLegal-append 0 (section s c) (emitted c.zero_bytes b) v.legal
              (rw (← v.run) (emitted-IsLegal c.zero_bytes b v.run_short)));
      }

  pub round-read_back : read_back s (escaped_round c byte_buffer) ≡ read_back s c ++ to_bits 8 b
  round-read_back =
      rw
        (
          round-section,
          unescape-append 0 (section s c) (emitted c.zero_bytes b),
          ← v.run,
          emitted-unescape c.zero_bytes b v.run_short,
          octets-append (unescape 0 (section s c)) (b ∷ []),
        )
        (unfold octets in ap (λ xs. read_back s c ++ xs) (append-nil (to_bits 8 b)))
