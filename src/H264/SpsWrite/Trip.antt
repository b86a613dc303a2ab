-- ===== src/H264/SpsWrite/Trip.antt =====
-- The sequence parameter set as a reader of the packet finds it.
use rockchip_kmpp.Prelude.{◌+◌, ◌≡◌, refl, sym, subst, inl}
use rockchip_kmpp.Prelude.Ret.{ok}
use rockchip_kmpp.BitWriter.{trailing}
use rockchip_kmpp.BitReader.Items.{IsItem, All}
use rockchip_kmpp.H264.{Sps}
use rockchip_kmpp.H264.Packet.{Packet, open_writer, close_writer}
use rockchip_kmpp.H264.Chain.{◌▸◌, start_nal}
use rockchip_kmpp.H264.Nal.{Holds, HasRoom, nal_lem}
use rockchip_kmpp.H264.SpsWrite.{nalu_type_sps, sps_to_packet}
use rockchip_kmpp.H264.SpsWrite.Syntax.{IsSupported, sps_items}
use rockchip_kmpp.H264.SpsWrite.Written.{put_sps_lem}

-- h264e_sps_to_packet of a set that is progressive, 4:2:0, of a known profile, of type 0 or 2 of
-- the picture order count and without parameters of a hypothetical decoder, if each field that is
-- written fits its coding and the packet has room, puts behind what the packet holds a NAL unit of
-- type 7: start code, header, and an escaped payload from which the bit reader reads the fields
-- that the syntax of H.264 has for such a set, in their order. The bytes before it stay, the length
-- grows by what is returned, and the buffer is not left.
pub sps_to_packet-Holds :
    (sps : Sps) (p : Packet)
    → IsSupported sps
    → All IsItem (sps_items sps)
    → HasRoom p (sps_items sps)
    → let r = sps_to_packet sps p in
      (r.0 ≡ ok) × (r.2.length ≡ p.length + r.1) × Holds p r.2 7 (sps_items sps)
unfolding sps_to_packet open_writer close_writer
sps_to_packet-Holds sps p v h r = (
  refl,
  refl,
  subst (λ c. Holds p (close_writer p (trailing c)) 7 (sps_items sps))
      (sym (put_sps_lem sps (open_writer p ▸ start_nal nalu_type_sps) v))
      (nal_lem p 7 (sps_items sps) (inl refl) h r),
)
