-- ===== src/H264/Packet.antt =====
-- vcodec/mpp/base/mpp_packet.c: the part of an MppPacket that the headers go to, which is its memory,
-- where its buffer starts, where the current data begins, and the sizes of both.
use rockchip_kmpp.Prelude.{ℕ, ◌+◌, ◌-◌, ◌^◌, ltb, if◌then◌else◌}
use rockchip_kmpp.Prelude.Word.{u32}
use rockchip_kmpp.BitWriter.{WriteCtx, init, bytes}

pub record Packet : Type 0 where
  pub mem : ℕ → ℕ
  pub start : ℕ
  pub pos : ℕ
  pub size : ℕ
  pub length : ℕ

-- Where the next header goes, and the pattern of the room there.
abbrev pub free_at : Packet → ℕ
free_at p = p.pos + p.length

abbrev pub buf_size : Packet → ℕ
buf_size p = u32 (p.start + p.size + 2 ^ 32 - u32 (free_at p))

-- The writer at the free part of a packet.
unfoldable pub open_writer : Packet → WriteCtx
open_writer p = (init (λ i. p.mem (free_at p + i)) (buf_size p)).1

-- The packet with the header that a writer has written.
unfoldable pub close_writer : Packet → WriteCtx → Packet
close_writer p c = record p {
  mem = λ i. if ltb i (free_at p) then p.mem i else c.mem (i - free_at p);
  length = p.length + bytes c;
}
