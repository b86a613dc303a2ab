-- ===== src/RefCheck/Again.antt =====
-- A configuration that is checked again.
use mathlib.Core.Path.{subst}
use rockchip_kmpp.Prelude.{◌+◌, ◌≡◌, refl, ap, ◌∙◌, sym, Bool, true, if◌then◌else◌, some}
use rockchip_kmpp.Prelude.Maybe.{>>=-eq-some, some-cancel}
use rockchip_kmpp.Prelude.Ret.{Ret}
use rockchip_kmpp.RefTypes.{RefCfg, CpbInfo}
use rockchip_kmpp.EncRefs.{EncRefs, refs_init, set_cfg, setup_cnts, no_cpb, get_cpb_info}
use rockchip_kmpp.EncRefs.Dryrun.{dryrun, dry_cpb}
use rockchip_kmpp.RefCheck.{LtCheck, StCheck, run_checks, learn_size, cfg_check}

set_cfg-info :
    (q : EncRefs) (c : RefCfg) {refs : EncRefs}
    → set_cfg q (some c) ≡ some refs
    → (refs.ref_cfg ≡ some c) × (refs.cpb.info ≡ c.cpb_info)
unfolding set_cfg
set_cfg-info q c e =
    let cpb = if c.keep_cpb then q.cpb else no_cpb in
    let (cnter, _, r) = >>=-eq-some (setup_cnts c.lt_cfg_cnt 0 c.lt_cfg cpb.lt_cnter) _ e in
    subst (λ x. (x.ref_cfg ≡ some c) × (x.cpb.info ≡ c.cpb_info)) (some-cancel r) (refl, refl)

-- The dry run of a configuration that is already marked.
dryrun-ready :
    (refs : EncRefs) (c : RefCfg) {ran : EncRefs}
    → refs.ref_cfg ≡ some c
    → c.ready ≡ true
    → dryrun refs ≡ some ran
    → ran.cpb.info.dpb_size ≡ refs.cpb.info.max_lt_cnt + refs.cpb.info.max_st_cnt
unfolding dryrun
dryrun-ready refs c has ready e =
    let (c', has', r₁) = >>=-eq-some refs.ref_cfg _ e in
    let (cpb, kept, r₂) =
      >>=-eq-some (if c'.ready then some refs.cpb else dry_cpb c' refs.cpb) _ r₁ in
    let mark = ap (λ x. x.ready) (some-cancel (sym has' ∙ has)) ∙ ready in
    let same =
      some-cancel
        (sym (ap (λ (b : Bool). if b then some refs.cpb else dry_cpb c' refs.cpb) mark) ∙ kept) in
    ap (λ x. x.cpb.info.dpb_size) (sym (some-cancel r₂))
    ∙ ap (λ x. x.info.max_lt_cnt + x.info.max_st_cnt) (sym same)

learn_size-ready :
    (p : RefCfg) (l : LtCheck) (s : StCheck) {info : CpbInfo}
    → p.ready ≡ true
    → learn_size p l s ≡ some info
    → info.dpb_size ≡ l.max_lt_ref_cnt + s.max_st_ref_cnt
unfolding learn_size get_cpb_info
learn_size-ready p l s ready e =
    let (refs, e₁, r₁) = >>=-eq-some _ _ e in
    let (ran, e₂, r₂) = >>=-eq-some (dryrun refs) _ r₁ in
    let (has, sizes) = set_cfg-info refs_init _ e₁ in
    ap (λ x. x.dpb_size) (sym (some-cancel r₂))
    ∙ dryrun-ready refs _ has ready e₂
    ∙ ap (λ x. x.max_lt_cnt + x.max_st_cnt) sizes

-- If a configuration that is already marked as ready passes the tests of mpp_enc_ref_cfg_check
-- again, the buffer size that it gets, where the check does not fault, is the sum of the two
-- counts that the tests have made: there is no dry run.
cfg_check-again :
    (p : RefCfg) (l : LtCheck) (s : StCheck) {ret : Ret} {p' : RefCfg}
    → p.ready ≡ true
    → run_checks p ≡ some (l, s)
    → s.ready ≡ true
    → cfg_check p ≡ some (ret, p')
    → p'.cpb_info.dpb_size ≡ l.max_lt_ref_cnt + s.max_st_ref_cnt
unfolding cfg_check
cfg_check-again p l s ready ran passed e =
    let (ls, e₁, r₁) = >>=-eq-some (run_checks p) _ e in
    let (info, e₂, r₂) =
      >>=-eq-some (if ls.1.ready then learn_size p ls.0 ls.1 else some p.cpb_info) _ r₁ in
    let same = some-cancel (sym e₁ ∙ ran) in
    let go = ap (λ x. x.1.ready) same ∙ passed in
    let learnt =
      sym (ap (λ (b : Bool). if b then learn_size p ls.0 ls.1 else some p.cpb_info) go) ∙ e₂ in
    ap (λ x. x.1.cpb_info.dpb_size) (sym (some-cancel r₂))
    ∙ learn_size-ready p ls.0 ls.1 ready learnt
    ∙ ap (λ x. x.0.max_lt_ref_cnt + x.1.max_st_ref_cnt) same
