-- ===== src/StreamRing/Tests.antt =====
-- Runs of the ring on small inputs.
use rockchip_kmpp.Prelude.{
  ◌+◌, ◌*◌, ◌%◌, ◌^◌, ◌<◌, ◌≡◌, refl, arith, true, false, if◌then◌else◌, [], ◌∷◌, ◌++◌,
}
use rockchip_kmpp.Prelude.Int.{pos}
use rockchip_kmpp.Prelude.Ret.{ok, nok}
use rockchip_kmpp.StreamRing.{
  RingBufPool, RingBuf, Buffer, ring_buf_put_use, ring_buf_put_free, ring_buf_get_free,
  ring_buf_get_use_size,
}
use rockchip_kmpp.StreamRing.Place.{
  InRing, Request, Placed, fits, gap, get_free-Placed, get_free-underflow,
}
use rockchip_kmpp.StreamRing.Queue.{Segment, Holds, put_use-Holds, put_free-Holds, put_use-full}

abbrev memory : Buffer
memory = record { handle = 7; size = 65536; ptr = 0x1000; mpi_buf_id = pos 1 }

abbrev unused : RingBufPool
unused = record {
  r_pos = 0;
  w_pos = 0;
  len = 0;
  use_len = 0;
  buf_base = 0;
  buf = 0;
  mpi_buf_id = pos 0;
  init_done = false;
  min_buf_size = 0;
  l_r_pos = 0;
  l_w_pos = 0;
}

abbrev no_buf : RingBuf
no_buf = record {
  buf = 0;
  mpi_buf_id = pos 0;
  buf_start = 0;
  start_offset = 0;
  r_pos = 0;
  use_len = 0;
  size = 0;
  cir_flag = 0;
}

-- A ring with 100 bytes in it, up to position 20 behind its end.
abbrev wrapped : RingBufPool
wrapped = record unused {
  r_pos = 65456;
  w_pos = 20;
  len = 65536;
  buf_base = 0x1000;
  buf = 7;
  init_done = true;
  min_buf_size = 10240;
}

abbrev given : RingBuf
given = (ring_buf_get_free wrapped no_buf 16 4096).1

given_start : given.start_offset ≡ 32
unfolding ring_buf_get_free
given_start = refl

given_size : given.size ≡ 65424
unfolding ring_buf_get_free
given_size = refl

wrapped-InRing : InRing wrapped
wrapped-InRing = record { len_le = omega arith; r_lt = omega arith; w_lt = omega arith }

abbrev first : Segment
first = record { start = 65456; size = 60 }

-- The second segment goes round the end.
abbrev second : Segment
second = record { start = 65516; size = 40 }

wrapped-Holds : Holds wrapped (first ∷ second ∷ [])
wrapped-Holds = record { in_ring = wrapped-InRing; chain = (refl, (refl, refl)); used = refl }

request : Request wrapped 4 4096
request = record {
  in_ring = wrapped-InRing;
  align_le = omega arith;
  aligned = refl;
  min_size_le = omega arith;
  min_buf_size_le = omega arith;
}

get_free-Placed_example :
    ((ring_buf_get_free wrapped no_buf (2 ^ 4) 4096).0 ≡ (if fits wrapped 4 4096 then ok else nok))
    × (fits wrapped 4 4096 ≡ true
        → Placed wrapped 4 4096 (ring_buf_get_free wrapped no_buf (2 ^ 4) 4096).1
          × ((ring_buf_get_free wrapped no_buf (2 ^ 4) 4096).1.start_offset % 2 ^ 4 ≡ 0))
get_free-Placed_example = get_free-Placed wrapped no_buf 4 4096 request

wrapped_fits : fits wrapped 4 4096 ≡ true
unfolding gap
wrapped_fits = refl

given-Placed : Placed wrapped 4 4096 given
given-Placed = (get_free-Placed_example.1 wrapped_fits).0

put_use-Holds_example :
    let after = ring_buf_put_use wrapped (record given { use_len = 500 }) in
    (after.0 ≡ ok)
    × (after.1.len ≡ wrapped.len)
    × Holds after.1 (
        (first ∷ second ∷ [])
        ++ (record { start = wrapped.w_pos; size = gap 4 wrapped.w_pos + 500 } ∷ []))
put_use-Holds_example =
    put_use-Holds wrapped 4 4096 500 given (first ∷ second ∷ []) wrapped-Holds given-Placed
      (omega arith) (omega (arith, given_size))

-- The buffer that ends the first segment.
abbrev front : RingBuf
front = record no_buf { buf = 7; start_offset = 65460; use_len = 56 }

put_free-Holds_example :
    let after = ring_buf_put_free wrapped front in
    (after.0 ≡ ok) × (after.1.len ≡ wrapped.len) × Holds after.1 (second ∷ [])
put_free-Holds_example =
    put_free-Holds wrapped front first (second ∷ []) wrapped-Holds refl (omega arith) refl

put_use-full_example :
    ((ring_buf_put_use wrapped (record given { use_len = given.size })).0 ≡ ok)
    × (ring_buf_get_use_size (ring_buf_put_use wrapped (record given { use_len = given.size })).1
        ≡ 0)
put_use-full_example = put_use-full wrapped 4 4096 given wrapped-InRing given-Placed

-- A ring whose size is no multiple of 16, one byte from full.
abbrev odd : RingBufPool
odd = record wrapped { r_pos = 0; w_pos = 65530; len = 65531 }

odd_past : odd.len + odd.r_pos < odd.w_pos + gap 4 odd.w_pos
unfolding gap
odd_past = omega arith

get_free-underflow_example :
    ((ring_buf_get_free odd no_buf (2 ^ 4) 4096).0 ≡ ok)
    × (3 * 2 ^ 30 < (ring_buf_get_free odd no_buf (2 ^ 4) 4096).1.size)
get_free-underflow_example =
    get_free-underflow odd no_buf 4 4096
      (record { len_le = omega arith; r_lt = omega arith; w_lt = omega arith }) (omega arith)
      (omega arith) odd_past (omega arith) (omega arith)
