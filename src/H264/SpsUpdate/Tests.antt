-- ===== src/H264/SpsUpdate/Tests.antt =====
-- A configuration of 1920x1080 at 30 frames a second.
use mathlib.Core.List.{Memᴰ}
use rockchip_kmpp.Prelude.{◌+◌, ◌≤◌, ◌≡◌, ◌≢◌, refl, inl, arith}
use rockchip_kmpp.Prelude.Ret.{ok}
use rockchip_kmpp.RefTypes.{no_info}
use rockchip_kmpp.RefCheck.{empty_cfg, cfg_cpb_info}
use rockchip_kmpp.Maths.{align16}
use rockchip_kmpp.H264.Packet.{Packet}
use rockchip_kmpp.H264.Nal.{Holds, HasRoom}
use rockchip_kmpp.H264.SpsWrite.{sps_to_packet}
use rockchip_kmpp.H264.SpsWrite.Syntax.{IsSupported, sps_items}
use rockchip_kmpp.H264.SpsUpdate.{
  SpsCfg, LevelInfo, info, level_infos, raise_level, frame_mbs, made_vui, made_crop, sps_update,
}
use rockchip_kmpp.H264.SpsUpdate.Size.{decoded_width, decoded_height, sps_update-size}
use rockchip_kmpp.H264.SpsUpdate.Level.{limit, sps_update-level}
use rockchip_kmpp.H264.SpsUpdate.Fields.{IsCfg, Asks, sps_update-Holds}

abbrev cfg : SpsCfg
cfg = record {
  width = 1920;
  height = 1080;
  range = 0;
  color = 2;
  colorprim = 2;
  colortrc = 2;
  gop = 60;
  fps_out_flex = 0;
  fps_out_num = 30;
  fps_out_denorm = 1;
  profile = 100;
  level = 31;
  poc_type = 0;
  log2_max_poc_lsb = 12;
  log2_max_frame_num = 12;
  gaps_not_allowed = 0;
  transform8x8_mode = 1;
  ref_cfg = record empty_cfg { cpb_info = record no_info { dpb_size = 2 } };
}

raised : (sps_update cfg).level_idc ≡ 40
unfolding sps_update raise_level align16
raised = refl

-- A configured level 1b is taken for a high one and stays, whatever the size.
level_1b_stays : (sps_update (record cfg { level = 99 })).level_idc ≡ 99
unfolding sps_update raise_level align16
level_1b_stays = refl

sps_update-size_example :
    (decoded_width (sps_update cfg) ≡ 1920) × (decoded_height (sps_update cfg) ≡ 1080)
sps_update-size_example =
    sps_update-size cfg (omega arith) (omega arith) (omega arith) (omega arith)

abbrev level_31 : LevelInfo
level_31 = info 31 108000 3600 18000 14000

abbrev level_40 : LevelInfo
level_40 = info 40 245760 8192 32768 20000

level_31-Memᴰ : Memᴰ level_31 level_infos
level_31-Memᴰ = Memᴰ.tail (
    Memᴰ.tail (
      Memᴰ.tail
        (Memᴰ.tail (Memᴰ.tail (Memᴰ.tail (Memᴰ.tail (Memᴰ.tail (Memᴰ.tail (Memᴰ.head refl)))))))))

level_40-Memᴰ : Memᴰ level_40 level_infos
level_40-Memᴰ = Memᴰ.tail (
    Memᴰ.tail (
      Memᴰ.tail (
        Memᴰ.tail (
          Memᴰ.tail (
            Memᴰ.tail
              (Memᴰ.tail (Memᴰ.tail (Memᴰ.tail (Memᴰ.tail (Memᴰ.tail (Memᴰ.head refl)))))))))))

room_40 : frame_mbs cfg ≤ 8192
unfolding align16
room_40 = omega arith

sps_update-level_example :
    (frame_mbs cfg ≤ limit level_infos (sps_update cfg).level_idc)
    × (31 ≤ (sps_update cfg).level_idc)
    × ((f : LevelInfo)
        → Memᴰ f level_infos
        → f.level ≢ 99
        → 31 ≤ f.level
        → frame_mbs cfg ≤ f.max_mbs
        → (sps_update cfg).level_idc ≤ f.level)
sps_update-level_example =
    sps_update-level cfg level_31 level_40 level_31-Memᴰ (omega arith) refl level_40-Memᴰ room_40

cfg-IsCfg : IsCfg cfg
unfolding cfg_cpb_info
cfg-IsCfg = record {
  some_width = omega arith;
  some_height = omega arith;
  width = omega arith;
  height = omega arith;
  gop = omega arith;
  num = omega arith;
  denorm = omega arith;
  profile = refl;
  level = omega arith;
  poc_type = inl refl;
  frame_num = omega arith;
  poc_lsb = omega arith;
  transform = omega arith;
  color = omega arith;
  colorprim = omega arith;
  colortrc = omega arith;
  dpb = omega arith;
}

abbrev packet : Packet
packet = record { mem = λ _. 0xaa; start = 100; pos = 100; size = 4096; length = 20 }

cfg-HasRoom : HasRoom packet (sps_items (sps_update cfg))
unfolding sps_update made_vui made_crop align16
cfg-HasRoom = record { octets = λ i. omega arith; room = omega arith; small = omega arith }

sps_update-Holds_example :
    let sps = sps_update cfg in
    let r = sps_to_packet sps packet in
    (r.0 ≡ ok)
    × (r.2.length ≡ 20 + r.1)
    × Holds packet r.2 7 (sps_items sps)
    × IsSupported sps
    × Asks cfg sps
sps_update-Holds_example = sps_update-Holds cfg packet cfg-IsCfg cfg-HasRoom
