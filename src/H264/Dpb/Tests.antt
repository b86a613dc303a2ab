-- ===== src/H264/Dpb/Tests.antt =====
-- The second frame of a stream with one reference frame.
use rockchip_kmpp.Prelude.{ℕ, ◌≡◌, refl, arith, [], ◌∷◌, true, some, inl}
use rockchip_kmpp.RefTypes.{FrmStatus, CpbStatus, no_frm}
use rockchip_kmpp.H264.Dpb.{Dpb, dpb_init, start_frame, place_frame}
use rockchip_kmpp.H264.Dpb.Place.{Placed, place_frame-Placed}
use rockchip_kmpp.H264.Dpb.Numbers.{IsNumbered, Follows, place_frame-Follows}

abbrev opened : Dpb
opened = record dpb_init { dpb_size = 1; total_cnt = 2; max_frm_num = 16; max_poc_lsb = 16 }

abbrev idr : FrmStatus
idr = record no_frm { valid = true; is_intra = true; is_idr = true }

abbrev inter : FrmStatus
inter = record no_frm { valid = true; seq_idx = 1 }

abbrev first : CpbStatus
first = record { curr = idr; refr = no_frm; init = []; final = idr ∷ [] }

abbrev second : CpbStatus
second = record { curr = inter; refr = idr; init = idr ∷ []; final = inter ∷ [] }

place_frame-Placed_example :
    (c : ℕ) × Placed second
      (start_frame inter (place_frame first opened))
      (place_frame second (place_frame first opened))
      c
place_frame-Placed_example = place_frame-Placed second (place_frame first opened) (omega arith)

-- Before the wrap of both numbers.
abbrev running : Dpb
running = record opened {
  rt = record {
    last_seq_idx = 0;
    last_is_ref = 1;
    last_frm_num = 15;
    last_poc_lsb = 14;
    last_poc_msb = 0;
  };
}

running-IsNumbered : IsNumbered running
running-IsNumbered = record {
  frm_num = omega arith;
  is_ref = omega arith;
  lsb = omega arith;
  even = λ _. refl;
  max_even = refl;
  type = inl refl;
}

place_frame-Follows_example :
    (c : ℕ) × ((place_frame second running).curr ≡ some c)
    × Follows inter running ((place_frame second running).frames c)
    × IsNumbered (place_frame second running)
place_frame-Follows_example =
    place_frame-Follows second running (omega arith) running-IsNumbered (λ _ e. omega (arith, e))
