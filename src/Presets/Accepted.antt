-- ===== src/Presets/Accepted.antt =====
-- vcodec/mpp/base/mpp_enc_refs_setup.c: the check accepts the configurations that the library offers.
use mathlib.Core.Option
use rockchip_kmpp.Prelude.{
  ℕ, ◌≡◌, refl, sym, ap, ◌∙◌, Bool, true, List, [], ◌∷◌, Option, some, length, Bool-cases, inl, inr,
  arith, ◌&&◌, ◌||◌, ltb, if◌then◌else◌, ◌==◌,
}
use rockchip_kmpp.Prelude.Int.{ℤ, pos, ◌+ℤ◌, ◌-ℤ◌, ltb_ℤ}
use rockchip_kmpp.Prelude.Cast.{nonzero}
use rockchip_kmpp.Prelude.Maybe.{◌>>=◌, >>=-some, >>=-eq-some, some-cancel}
use rockchip_kmpp.Prelude.Ret.{Ret, ok}
use rockchip_kmpp.RefTypes.{
  ref_mode_is_global, ref_to_prev_ref_frm, ref_to_prev_lt_ref, ref_to_prev_intra, LtFrmCfg,
  StFrmCfg, RefCfg,
}
use rockchip_kmpp.RefCheck.{
  LtCheck, StCheck, set_cfg_cnt, add_lt_cfg, add_st_cfg, copy_in, bit_mask, lt_is_ready, lt_check,
  lt_checks, st_is_ready, st_check, st_checks, run_checks, learn_size, cfg_check, no_lt_check,
  no_st_check,
}
use rockchip_kmpp.Presets.{
  RefParam, hir_repeat, hir_gap, st, lt, fill, smart_entries, gen_smart_gop_ref_cfg, hir_entries,
  gen_hir_skip_ref,
}

-- A configuration that the loops of the check pass is accepted, where the dry run does not fault.
passes :
    (p : RefCfg) (ls : LtCheck × StCheck) {r : Ret × RefCfg}
    → run_checks p ≡ some ls
    → ls.1.ready ≡ true
    → cfg_check p ≡ some r
    → (r.0 ≡ ok) × (r.1.ready ≡ true) × (r.1.st_cfg_cnt ≡ p.st_cfg_cnt)
unfolding cfg_check
passes p ls {r} has is e =
    let (ls', has', e₁) = >>=-eq-some (run_checks p) _ e in
    let same : ls' ≡ ls = some-cancel (sym has' ∙ has) in
    let is' : ls'.1.ready ≡ true = ap (λ (x : LtCheck × StCheck). x.1.ready) same ∙ is in
    let (info, _, e₂) =
      >>=-eq-some (if ls'.1.ready then learn_size p ls'.0 ls'.1 else some p.cpb_info) _ e₁ in
    let out = sym (some-cancel e₂) in
    (
      ap (λ (x : Ret × RefCfg). x.0) out ∙ rw is' refl,
      ap (λ (x : Ret × RefCfg). x.1.ready) out ∙ is',
      ap (λ (x : Ret × RefCfg). x.1.st_cfg_cnt) out,
    )

-- The entries with a long-term frame that the loops see.
abbrev filled : RefCfg → LtFrmCfg → List StFrmCfg → Option RefCfg
filled p l ss = add_lt_cfg (set_cfg_cnt p 1 8) (l ∷ []) >>= λ q. add_st_cfg q ss

abbrev Passed : RefCfg → LtFrmCfg → List StFrmCfg → Type 0
Passed p l ss =
    (q : RefCfg) × (filled p l ss ≡ some q)
    × (ls : LtCheck × StCheck) × (run_checks q ≡ some ls)
    × (ls.1.ready ≡ true)
    × (q.st_cfg_cnt ≡ length ss)

-- Whether the gap counts for the length of the dry run.
abbrev counts : ℤ → Bool
counts gap = nonzero gap && ltb_ℤ (pos 0) (gap +ℤ pos 0)

abbrev no_checks : LtCheck × StCheck
no_checks = (no_lt_check, no_st_check [])

-- Two entries for the ends, and one of layer 1 between them, whatever its repeat.
module _ (p : RefCfg) (gap : ℤ) (first last : ℕ)
    (h : (ref_mode_is_global first && ref_mode_is_global last) ≡ true) where
  abbrev two : List StFrmCfg
  two = st (pos 0) (pos 0) first (pos 0) ∷ st (pos 0) (pos 0) last (pos 0) ∷ []

  abbrev two_cfg : RefCfg
  two_cfg = Option.get_or (filled p (lt gap) two) p

  two-Passed : Passed p (lt gap) two
  unfolding set_cfg_cnt add_lt_cfg add_st_cfg copy_in run_checks lt_checks lt_check lt_is_ready
      st_checks st_check st_is_ready bit_mask
  two-Passed =
      let head : ref_mode_is_global first ≡ true = ground arith in
      let tail : ref_mode_is_global last ≡ true = ground arith in
      elim (Bool-cases (counts gap)) as (λ _. Passed p (lt gap) two) [
        | inl k ↦ (
          two_cfg,
          refl,
          Option.get_or (run_checks two_cfg) no_checks,
          rw (k, head, tail),
          rw (k, head, tail),
          refl,
        )
        | inr k ↦ (
          two_cfg,
          refl,
          Option.get_or (run_checks two_cfg) no_checks,
          rw (k, head, tail),
          rw (k, head, tail),
          refl,
        )
      ]

module _ (p : RefCfg) (gap repeat : ℤ) (first last : ℕ)
    (h : (ref_mode_is_global first && ref_mode_is_global last) ≡ true) where
  abbrev three : List StFrmCfg
  three =
      st (pos 0) (pos 0) first (pos 0)
      ∷ st (pos 0) (pos 1) ref_to_prev_ref_frm repeat
      ∷ st (pos 0) (pos 0) last (pos 0)
      ∷ []

  abbrev three_cfg : RefCfg
  three_cfg = Option.get_or (filled p (lt gap) three) p

  three-Passed : Passed p (lt gap) three
  unfolding set_cfg_cnt add_lt_cfg add_st_cfg copy_in run_checks lt_checks lt_check lt_is_ready
      st_checks st_check st_is_ready bit_mask
  three-Passed =
      let head : ref_mode_is_global first ≡ true = ground arith in
      let tail : ref_mode_is_global last ≡ true = ground arith in
      elim (Bool-cases (counts gap)) as (λ _. Passed p (lt gap) three) [
        | inl k ↦ (
          three_cfg,
          refl,
          Option.get_or (run_checks three_cfg) no_checks,
          rw (k, head, tail),
          rw (k, head, tail),
          refl,
        )
        | inr k ↦ (
          three_cfg,
          refl,
          Option.get_or (run_checks three_cfg) no_checks,
          rw (k, head, tail),
          rw (k, head, tail),
          refl,
        )
      ]

-- A filled configuration whose loops pass.
fill-accepts :
    (p : RefCfg) (l : LtFrmCfg) (ss : List StFrmCfg) {r : Ret × RefCfg}
    → Passed p l ss
    → fill p 1 8 (l ∷ []) ss ≡ some r
    → (r.0 ≡ ok) × (r.1.ready ≡ true) × (r.1.st_cfg_cnt ≡ length ss)
unfolding fill
fill-accepts p l ss {r} (q, has, ls, ran, is, count) e =
    let (p₁, e₁, r₁) = >>=-eq-some (add_lt_cfg (set_cfg_cnt p 1 8) (l ∷ [])) _ e in
    let (p₂, e₂, r₂) = >>=-eq-some (add_st_cfg p₁ ss) cfg_check r₁ in
    let same : p₂ ≡ q = some-cancel (sym (>>=-some (λ q. add_st_cfg q ss) e₁ e₂) ∙ has) in
    let out = passes q ls ran is (ap cfg_check (sym same) ∙ r₂) in (out.0, out.1, out.2 ∙ count)

-- mpi_enc_gen_smart_gop_ref_cfg, with any lengths, returns without an error, where neither an array
-- nor the dry run of the check faults: the configuration is marked as ready, with three short-term entries if the
-- length of the virtual intra period is more than 1, and two else.
gen_smart_gop_ref_cfg-accepts :
    (p : RefCfg) (para : RefParam) {r : Ret × RefCfg}
    → gen_smart_gop_ref_cfg p para ≡ some r
    → (r.0 ≡ ok)
      × (r.1.ready ≡ true)
      × (r.1.st_cfg_cnt ≡ (if ltb_ℤ (pos 1) para.vi_len then 3 else 2))
unfolding gen_smart_gop_ref_cfg smart_entries
gen_smart_gop_ref_cfg-accepts p para e = elim (Bool-cases (ltb_ℤ (pos 1) para.vi_len)) [
  | inl k ↦
      let e' = rw k at e in
      rw k (
        fill-accepts p (lt para.gop_len) _
          (three-Passed p para.gop_len (para.vi_len -ℤ pos 2) ref_to_prev_intra ref_to_prev_intra
            refl)
          e')
  | inr k ↦
      let e' = rw k at e in
      rw k (
        fill-accepts p (lt para.gop_len) _
          (two-Passed p para.gop_len ref_to_prev_intra ref_to_prev_intra refl) e')
]

-- mpi_enc_gen_hir_skip_ref, with any parameters, returns without an error, where neither an array
-- nor the dry run of the check faults: the configuration is marked as ready, with two short-term
-- entries if the pre-encoding is on and the layer between has one frame at most, and three else.
gen_hir_skip_ref-accepts :
    (p : RefCfg) (para : RefParam) {r : Ret × RefCfg}
    → gen_hir_skip_ref p para ≡ some r
    → (r.0 ≡ ok)
      × (r.1.ready ≡ true)
      × (r.1.st_cfg_cnt ≡ (if (para.pre_en == 0) || ltb 1 para.enh_m then 3 else 2))
unfolding gen_hir_skip_ref hir_entries
gen_hir_skip_ref-accepts p para e = elim (Bool-cases (para.pre_en == 0)) [
  | inl k ↦
      let e' = rw k at e in
      rw k (
        fill-accepts p (lt para.gop_len) _
          (three-Passed p para.gop_len (hir_repeat para) ref_to_prev_lt_ref ref_to_prev_intra refl)
          e')
  | inr k ↦ rw k (elim (Bool-cases (ltb 1 para.enh_m)) [
    | inl more ↦
        let e' = rw (k, more) at e in
        rw more (
          fill-accepts p (lt (hir_gap para)) _
            (three-Passed p (hir_gap para) (hir_repeat para) ref_to_prev_ref_frm ref_to_prev_lt_ref
              refl)
            e')
    | inr few ↦
        let e' = rw (k, few) at e in
        rw few (
          fill-accepts p (lt (hir_gap para)) _
            (two-Passed p (hir_gap para) ref_to_prev_ref_frm ref_to_prev_lt_ref refl) e')
  ])
]
