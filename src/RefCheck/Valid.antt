-- ===== src/RefCheck/Valid.antt =====
-- What a configuration is that mpp_enc_ref_cfg_check accepts.
use mathlib.Core.Path.{subst}
use rockchip_kmpp.Prelude.{
  ℕ, zero, suc, ◌+◌, ◌≤◌, ◌<◌, ◌≡◌, ◌≢◌, refl, ap, ◌∙◌, sym, arith, Bool, true, false, ◌||◌, ◌==◌,
  if◌then◌else◌, List, Option, some, get_elem?, set, Bool-cases, inl, inr, ◌⊎◌,
}
use rockchip_kmpp.Prelude.Int.{ℤ, pos, ◌≤ℤ◌}
use rockchip_kmpp.Prelude.Maybe.{>>=-eq-some, some-cancel}
use rockchip_kmpp.RefTypes.{
  LtFrmCfg, StFrmCfg, ref_mode_is_global, ref_mode_is_lt_mode, ref_mode_is_st_mode,
}
use rockchip_kmpp.RefCheck.{
  LtCheck, StCheck, bit_mask, lt_is_ready, lt_check, lt_checks, mended, st_is_ready, st_check,
}

-- A long-term configuration in order: an index from 0 to 15, the lowest layer, and a mode that
-- long-term frames may have.
pub record IsLtValid (cfg : LtFrmCfg) : Type 0 where
  pub low : pos 0 ≤ℤ cfg.lt_idx
  pub high : cfg.lt_idx ≤ℤ pos 15
  pub layer : cfg.temporal_id ≡ pos 0
  pub mode : (ref_mode_is_global cfg.ref_mode || ref_mode_is_lt_mode cfg.ref_mode) ≡ true

-- A short-term configuration in order: one of four layers, no negative repeat, a mode that
-- short-term frames may have, and at the ends a reference in the lowest layer.
pub record IsStValid (cfg : StFrmCfg) (at_end : Bool) : Type 0 where
  pub low : pos 0 ≤ℤ cfg.temporal_id
  pub high : cfg.temporal_id ≤ℤ pos 3
  pub repeats : pos 0 ≤ℤ cfg.repeat
  pub mode : (ref_mode_is_global cfg.ref_mode || ref_mode_is_st_mode cfg.ref_mode) ≡ true
  pub ends : at_end ≡ true → (cfg.is_non_ref ≡ pos 0) × (cfg.temporal_id ≡ pos 0)

-- The entry at a position of an array is in order.
abbrev pub LtAt : List LtFrmCfg → ℕ → Type 0
LtAt lt_cfg j = (cfg : LtFrmCfg) × (get_elem? lt_cfg j ≡ some cfg) × IsLtValid cfg

abbrev pub is_end : ℕ → ℕ → Bool
is_end st_cfg_cnt j = (j == 0) || (j + 1 == st_cfg_cnt)

abbrev pub StAt : List StFrmCfg → ℕ → ℕ → Type 0
StAt st_cfg st_cfg_cnt j =
    (cfg : StFrmCfg) × (get_elem? st_cfg j ≡ some cfg) × IsStValid cfg (is_end st_cfg_cnt j)

lt_is_ready-IsLtValid :
    (cfg : LtFrmCfg) (mask used : ℕ)
    → bit_mask cfg.lt_idx ≡ some mask
    → lt_is_ready cfg mask used ≡ true
    → IsLtValid cfg
unfolding lt_is_ready bit_mask
lt_is_ready-IsLtValid cfg mask used m e = record {
  low = ground arith;
  high = ground arith;
  layer = ground arith;
  mode = ground arith;
}

lt_check-ready :
    (cfg : LtFrmCfg) (mask : ℕ) (c : LtCheck)
    → (lt_check cfg mask c).ready ≡ lt_is_ready cfg mask c.lt_idx_used_mask
unfolding lt_check
lt_check-ready cfg mask c = by_case _ _ _
  where
    by_case :
        (b : Bool) (x : LtCheck) (d : ℤ)
        → (if b then record x { lt_dryrun_length = d } else x).ready ≡ x.ready
    by_case true x d = refl
    by_case false x d = refl

pub st_is_ready-IsStValid :
    (cfg : StFrmCfg) (mask : ℕ) (at_end : Bool)
    → bit_mask cfg.temporal_id ≡ some mask
    → st_is_ready cfg at_end ≡ true
    → IsStValid (mended cfg) at_end
unfolding st_is_ready bit_mask
st_is_ready-IsStValid cfg mask at_end m e = record {
  low = ground arith;
  high = ground arith;
  repeats = ground arith;
  mode = ground arith;
  ends = λ is. (ground arith, ground arith);
}

pub st_check-same :
    (cfg : StFrmCfg) (mask i : ℕ) (at_end : Bool) (c : StCheck)
    → ((st_check cfg mask at_end i c).ready ≡ st_is_ready cfg at_end)
      × ((st_check cfg mask at_end i c).st_cfg ≡ set c.st_cfg i (mended cfg))
unfolding st_check
st_check-same cfg mask i at_end c = elim (Bool-cases (st_is_ready cfg at_end)) [
  | inl e ↦ rw e (refl, refl)
  | inr e ↦ rw e (refl, refl)
]

-- The rest of a loop after one round.
pub go_on-cases :
    {A : Type 0} (go : Bool) (rest : Option A) (here : A) {out : A}
    → (if go then rest else some here) ≡ some out
    → ((go ≡ true) × (rest ≡ some out)) ⊎ ((go ≡ false) × (here ≡ out))
go_on-cases true rest here e = inl (refl, e)
go_on-cases false rest here e = inr (refl, some-cancel e)

-- Every entry that the long-term loop has passed is in order.
pub lt_checks-LtAt :
    (left i : ℕ) (lt_cfg : List LtFrmCfg) (c : LtCheck) {c' : LtCheck}
    → lt_checks left i lt_cfg c ≡ some c'
    → c'.ready ≡ true
    → (j : ℕ) → i ≤ j
    → j < i + left
    → LtAt lt_cfg j
unfolding lt_checks
lt_checks-LtAt zero i lt_cfg c e r j low high = absurd (omega arith)
lt_checks-LtAt (suc left) i lt_cfg c {c'} e r j low high =
    let (cfg, e₁, r₁) = >>=-eq-some (get_elem? lt_cfg i) _ e in
    let (mask, e₂, r₂) = >>=-eq-some (bit_mask cfg.lt_idx) _ r₁ in
    let next = lt_check cfg mask c in
    let same = lt_check-ready cfg mask c in
    elim (go_on-cases next.ready (lt_checks left (i + 1) lt_cfg next) next r₂)
      as (λ _. LtAt lt_cfg j) [
        | inl (go, rest) ↦ elim (Bool-cases (i == j)) as (λ _. LtAt lt_cfg j) [
          | inl here ↦
              subst (LtAt lt_cfg) (ground arith)
                (cfg, e₁, lt_is_ready-IsLtValid cfg mask c.lt_idx_used_mask e₂ (sym same ∙ go))
          | inr later ↦
              lt_checks-LtAt left (i + 1) lt_cfg next rest r j (ground arith) (omega arith)
        ]
        | inr (stop, out) ↦ absurd (clash (sym stop ∙ ap (λ x. x.ready) out ∙ r))
      ]
  where
    clash : false ≢ true
    clash e = cc
