-- ===== src/RefCheck/Accepts.antt =====
-- mpp_enc_ref_cfg_check accepts configurations in order only.
use mathlib.Core.Path.{subst}
use rockchip_kmpp.Prelude.{
  ℕ, zero, suc, ◌+◌, ◌≤◌, ◌<◌, ◌≡◌, ◌≢◌, refl, ap, ◌∙◌, sym, arith, Bool, true, false, ◌==◌,
  if◌then◌else◌, some, get_elem?, get_elem?-set_self, get_elem?-set_ne, get_elem?-some_lt,
  Bool-cases, inl, inr, ◌⊎◌,
}
use rockchip_kmpp.Prelude.Maybe.{>>=-eq-some, some-cancel}
use rockchip_kmpp.Prelude.Ret.{Ret, ok, nok}
use rockchip_kmpp.RefTypes.{StFrmCfg, RefCfg, CpbInfo}
use rockchip_kmpp.RefCheck.{
  LtCheck, StCheck, bit_mask, lt_checks, mended, st_check, st_checks, run_checks, cfg_check,
  learn_size, no_lt_check, no_st_check,
}
use rockchip_kmpp.RefCheck.Valid.{
  LtAt, StAt, is_end, lt_checks-LtAt, st_check-same, st_is_ready-IsStValid, go_on-cases,
}

-- A round writes one entry.
module _ (cfg : StFrmCfg) (mask i : ℕ) (at_end : Bool) (c : StCheck) where
  here_entry :
      get_elem? c.st_cfg i ≡ some cfg
      → get_elem? (st_check cfg mask at_end i c).st_cfg i ≡ some (mended cfg)
  here_entry e =
      let (_, same) = st_check-same cfg mask i at_end c in
      ap (λ l. get_elem? l i) same
      ∙ get_elem?-set_self c.st_cfg i (mended cfg) (get_elem?-some_lt c.st_cfg i e)

  other_entry :
      (j : ℕ) → i ≢ j → get_elem? (st_check cfg mask at_end i c).st_cfg j ≡ get_elem? c.st_cfg j
  other_entry j ne =
      let (_, same) = st_check-same cfg mask i at_end c in
      ap (λ l. get_elem? l j) same ∙ get_elem?-set_ne c.st_cfg (mended cfg) ne

-- The entries before the loop's position stay.
st_checks-before :
    (left n i : ℕ) (c : StCheck) {c' : StCheck}
    → st_checks left n i c ≡ some c'
    → (j : ℕ) → j < i
    → get_elem? c'.st_cfg j ≡ get_elem? c.st_cfg j
unfolding st_checks
st_checks-before zero n i c e j low = ap (λ x. get_elem? x.st_cfg j) (sym (some-cancel e))
st_checks-before (suc left) n i c {c'} e j low =
    let (cfg, e₁, r₁) = >>=-eq-some (get_elem? c.st_cfg i) _ e in
    let (mask, e₂, r₂) = >>=-eq-some (bit_mask cfg.temporal_id) _ r₁ in
    let next = st_check cfg mask (is_end n i) i c in
    let other = other_entry cfg mask i (is_end n i) c j (omega arith) in
    elim (go_on-cases next.ready (st_checks left n (i + 1) next) next r₂)
      as (λ _. get_elem? c'.st_cfg j ≡ get_elem? c.st_cfg j) [
        | inl (go, rest) ↦ st_checks-before left n (i + 1) next rest j (omega arith) ∙ other
        | inr (stop, out) ↦ ap (λ x. get_elem? x.st_cfg j) (sym out) ∙ other
      ]

clash : false ≢ true
clash e = cc

-- Every entry that the short-term loop has passed is in order, as the loop leaves it.
st_checks-StAt :
    (left n i : ℕ) (c : StCheck) {c' : StCheck}
    → st_checks left n i c ≡ some c'
    → c'.ready ≡ true
    → (j : ℕ) → i ≤ j
    → j < i + left
    → StAt c'.st_cfg n j
unfolding st_checks
st_checks-StAt zero n i c e r j low high = absurd (omega arith)
st_checks-StAt (suc left) n i c {c'} e r j low high =
    let (cfg, e₁, r₁) = >>=-eq-some (get_elem? c.st_cfg i) _ e in
    let (mask, e₂, r₂) = >>=-eq-some (bit_mask cfg.temporal_id) _ r₁ in
    let next = st_check cfg mask (is_end n i) i c in
    let (same, _) = st_check-same cfg mask i (is_end n i) c in
    elim (go_on-cases next.ready (st_checks left n (i + 1) next) next r₂)
      as (λ _. StAt c'.st_cfg n j) [
        | inl (go, rest) ↦ elim (Bool-cases (i == j)) as (λ _. StAt c'.st_cfg n j) [
          | inl here ↦ subst (StAt c'.st_cfg n) (ground arith) (
            mended cfg,
            st_checks-before left n (i + 1) next rest i (omega arith)
                ∙ here_entry cfg mask i (is_end n i) c e₁,
            st_is_ready-IsStValid cfg mask (is_end n i) e₂ (sym same ∙ go),
          )
          | inr later ↦ st_checks-StAt left n (i + 1) next rest r j (ground arith) (omega arith)
        ]
        | inr (stop, out) ↦ absurd (clash (sym stop ∙ ap (λ x. x.ready) out ∙ r))
      ]

-- What the two loops leave, if they pass.
run_checks-valid :
    (p : RefCfg) {l : LtCheck} {s : StCheck}
    → run_checks p ≡ some (l, s)
    → s.ready ≡ true
    → ((j : ℕ) → j < p.lt_cfg_cnt → LtAt p.lt_cfg j)
      × ((j : ℕ) → j < p.st_cfg_cnt → StAt s.st_cfg p.st_cfg_cnt j)
unfolding run_checks
run_checks-valid p {l} {s} e r =
    let (l', e₁, r₁) = >>=-eq-some (lt_checks p.lt_cfg_cnt 0 p.lt_cfg no_lt_check) _ e in
    let start = no_st_check p.st_cfg in
    let (s', e₂, r₂) =
      >>=-eq-some
        (if l'.ready
          then st_checks p.st_cfg_cnt p.st_cfg_cnt 0 start
          else some (record start { ready = false }))
        _ r₁ in
    let both = some-cancel r₂ in
    let passed = ap (λ x. x.1.ready) both ∙ r in
    elim (go_on-cases l'.ready (st_checks p.st_cfg_cnt p.st_cfg_cnt 0 start)
        (record start { ready = false }) e₂)
      as (λ _.
        ((j : ℕ) → j < p.lt_cfg_cnt → LtAt p.lt_cfg j)
        × ((j : ℕ) → j < p.st_cfg_cnt → StAt s.st_cfg p.st_cfg_cnt j)) [
          | inl (go, rest) ↦ (
            λ j h.
                lt_checks-LtAt p.lt_cfg_cnt 0 p.lt_cfg no_lt_check e₁ go j (omega arith)
                  (omega arith),
            λ j h.
                subst (λ x. StAt x.st_cfg p.st_cfg_cnt j) (ap (λ x. x.1) both)
                  (st_checks-StAt p.st_cfg_cnt p.st_cfg_cnt 0 start rest passed j (omega arith)
                    (omega arith)),
          )
          | inr (stop, out) ↦ absurd (clash (ap (λ x. x.ready) out ∙ passed))
        ]

-- What the check says of a configuration, by its result.
abbrev pub Verdict : RefCfg → Ret × RefCfg → Type 0
Verdict p r =
    ((r.0 ≡ ok)
      × (r.1.ready ≡ true)
      × ((j : ℕ) → j < p.lt_cfg_cnt → LtAt r.1.lt_cfg j)
      × ((j : ℕ) → j < p.st_cfg_cnt → StAt r.1.st_cfg p.st_cfg_cnt j))
    ⊎ ((r.0 ≡ nok) × (r.1.ready ≡ false))

run_checks-Verdict :
    (p : RefCfg) (l : LtCheck) (s : StCheck) (info : CpbInfo)
    → run_checks p ≡ some (l, s)
    → Verdict p (
      if s.ready then ok else nok,
      record p { ready = s.ready; st_cfg = s.st_cfg; cpb_info = info },
    )
run_checks-Verdict p l s info e = elim (Bool-cases s.ready) [
  | inl go ↦ let (lts, sts) = run_checks-valid p e go in inl (rw go refl, go, lts, sts)
  | inr stop ↦ inr (rw stop refl, stop)
]

-- If mpp_enc_ref_cfg_check, where it does not fault, returns without an error, then the
-- configuration is marked as ready, every long-term entry is in order, and so is every short-term
-- entry of the configuration that it leaves; if it returns an error, the configuration is marked as
-- not ready.
pub cfg_check-Verdict :
    (p : RefCfg) {ret : Ret} {p' : RefCfg} → cfg_check p ≡ some (ret, p') → Verdict p (ret, p')
unfolding cfg_check
cfg_check-Verdict p e =
    let (ls, e₁, r₁) = >>=-eq-some (run_checks p) _ e in
    let (info, e₂, r₂) =
      >>=-eq-some (if ls.1.ready then learn_size p ls.0 ls.1 else some p.cpb_info) _ r₁ in
    subst (Verdict p) (some-cancel r₂) (run_checks-Verdict p ls.0 ls.1 info e₁)
