-- ===== src/H264/PpsWrite/Trip.antt =====
-- The picture parameter set as a reader of the packet finds it.
use rockchip_kmpp.Prelude.{◌+◌, ◌≡◌, refl, sym, subst, inr}
use rockchip_kmpp.BitWriter.{trailing}
use rockchip_kmpp.BitReader.Items.{IsItem, All}
use rockchip_kmpp.H264.{Pps}
use rockchip_kmpp.H264.Packet.{Packet, open_writer, close_writer}
use rockchip_kmpp.H264.Chain.{◌▸◌, start_nal}
use rockchip_kmpp.H264.Nal.{Holds, HasRoom, nal_lem}
use rockchip_kmpp.H264.PpsWrite.{nalu_type_pps, pps_to_packet}
use rockchip_kmpp.H264.PpsWrite.Syntax.{pps_items, IsSupported, put_pps_lem}

-- h264e_pps_to_packet, if scaling lists are sent only together with the transform of 8x8 blocks, each
-- field that is written fits its coding and the packet has room, puts behind what the packet holds a
-- NAL unit of type 8, from which the bit reader reads the fields of the syntax of H.264 in their
-- order, signed ones as code numbers. The bytes before it stay, the length grows by what is returned,
-- and the buffer is not left.
pub pps_to_packet-Holds :
    (pps : Pps) (p : Packet)
    → IsSupported pps
    → All IsItem (pps_items pps)
    → HasRoom p (pps_items pps)
    → let r = pps_to_packet pps p in (r.1.length ≡ p.length + r.0) × Holds p r.1 8 (pps_items pps)
unfolding pps_to_packet open_writer close_writer
pps_to_packet-Holds pps p supported h r = (
  refl,
  subst (λ c. Holds p (close_writer p (trailing c)) 8 (pps_items pps))
      (sym (put_pps_lem pps (open_writer p ▸ start_nal nalu_type_pps) supported))
      (nal_lem p 8 (pps_items pps) (inr refl) h r),
)
