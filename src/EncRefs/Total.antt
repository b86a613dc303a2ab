-- ===== src/EncRefs/Total.antt =====
-- mpp_enc_refs_get_cpb plans frames without a fault, as many as one likes.
use mathlib.Core.Path.{subst}
use rockchip_kmpp.Prelude.{
  ℕ, ◌≤◌, ◌<◌, ◌≡◌, refl, ◌∙◌, arith, Bool, true, false, if◌then◌else◌, length, some, get_elem?,
  get_elem?-lt,
}
use rockchip_kmpp.Prelude.Maybe.{>>=-some}
use rockchip_kmpp.RefTypes.{StFrmCfg, RefCfg, CpbStatus}
use rockchip_kmpp.Cpb.{VirtualCpb, reset_cnt, cleanup_cpb_refs}
use rockchip_kmpp.Cpb.History.{IsIndex}
use rockchip_kmpp.EncRefs.{EncRefs}
use rockchip_kmpp.EncRefs.Args.{CntArgs, plan_frame-args}
use rockchip_kmpp.EncRefs.Store.{SmallCpb, refer_and_store-total}
use rockchip_kmpp.EncRefs.Refine.{refer_and_store-curr}
use rockchip_kmpp.EncRefs.NextFrame.{
  lt_counters, begin_frame, needs_cleanup, plan_frame, get_cpb, get_cpb_st_cfg_pos,
}

-- A manager with a configuration of at most 16 long-term frames, whose arguments count up to 15 and
-- whose buffer is small.
pub record Configured (p : EncRefs) : Type 0 where
  pub cfg : RefCfg
  pub has_cfg : p.ref_cfg ≡ some cfg
  pub counted : cfg.st_cfg_cnt ≡ length cfg.st_cfg
  pub lt_cnt : cfg.lt_cfg_cnt ≤ 16
  pub some_st : 0 < cfg.st_cfg_cnt
  pub st_args : (i : ℕ) (s : StFrmCfg) → get_elem? cfg.st_cfg i ≡ some s → IsIndex s.ref_arg
  pub lt_args : CntArgs p.cpb.lt_cnter
  pub forced_arg : IsIndex p.usr_cfg.force_ref_arg
  pub sizes : SmallCpb p.cpb.info

st_cfg_pos-lt :
    (cpb : VirtualCpb) (cfg : RefCfg)
    → 0 < cfg.st_cfg_cnt
    → get_cpb_st_cfg_pos cpb cfg < cfg.st_cfg_cnt
unfolding get_cpb_st_cfg_pos
st_cfg_pos-lt cpb cfg h = ground arith

-- The counters and the sizes of a buffer are in order.
abbrev Sound : VirtualCpb → Type 0
Sound cpb = CntArgs cpb.lt_cnter × SmallCpb cpb.info

Sound-if : (b : Bool) (x y : VirtualCpb) → Sound x → Sound y → Sound (if b then x else y)
Sound-if true x y s t = s
Sound-if false x y s t = t

begin_frame-Sound : (p : EncRefs) → Sound p.cpb → Sound (begin_frame p).cpb
unfolding begin_frame cleanup_cpb_refs reset_cnt
begin_frame-Sound p s = Sound-if (needs_cleanup p) _ _ s (Sound-if p.ref_cfg_changed _ p.cpb s s)

-- mpp_enc_refs_get_cpb gives a result, if there is a short-term configuration and there are at most
-- 16 long-term ones, every argument of
-- the configuration and of what the user forces is from 0 to 15, and the buffer has room for its
-- frames and for eight at most. The manager is in order for the next frame.
pub get_cpb-total :
    (p : EncRefs) (status : CpbStatus)
    → Configured p
    → (p' : EncRefs) × (status' : CpbStatus) × (get_cpb p status ≡ some (p', status'))
      × Configured p'
      × IsIndex status'.curr.ref_arg
unfolding get_cpb begin_frame
get_cpb-total p status c =
    let q = begin_frame p in
    let (args, sizes) = begin_frame-Sound p (c.lt_args, c.sizes) in
    let cfg = c.cfg in
    let i = get_cpb_st_cfg_pos q.cpb cfg in
    let (st_cfg, has_st) =
      get_elem?-lt cfg.st_cfg i
        (subst (λ n. i < n) c.counted (st_cfg_pos-lt q.cpb cfg c.some_st)) in
    let (same_cfg, same_arg, same_info, cnts, arg) =
      plan_frame-args cfg st_cfg status q (c.st_args i st_cfg has_st) args c.forced_arg in
    let counters : lt_counters cfg.lt_cfg_cnt ≡ some cfg.lt_cfg_cnt = ground (arith, c.lt_cnt) in
    let q' = (plan_frame cfg st_cfg status q).0 in
    let frm = (plan_frame cfg st_cfg status q).1 in
    let (cpb', status', e, same) =
      refer_and_store-total q'.cpb frm status (rw same_info sizes) arg in
    (
      record q' { cpb = cpb' },
      status',
      >>=-some _ c.has_cfg (>>=-some _ counters (>>=-some _ has_st (>>=-some _ e refl))),
      record {
        cfg = cfg;
        has_cfg = same_cfg ∙ c.has_cfg;
        counted = c.counted;
        lt_cnt = c.lt_cnt;
        some_st = c.some_st;
        st_args = c.st_args;
        lt_args = rw same.lt_cnter cnts;
        forced_arg = rw same_arg c.forced_arg;
        sizes = rw (same.info ∙ same_info) sizes;
      },
      rw (refer_and_store-curr q'.cpb frm status e) arg,
    )
