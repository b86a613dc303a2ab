-- ===== src/RefCheck/Fill.antt =====
-- Entries that are added to a configuration.
use rockchip_kmpp.Prelude.{
  ℕ, zero, suc, ◌+◌, ◌≤◌, ◌<◌, ◌≡◌, ◌≢◌, refl, ap, ◌∙◌, arith, true, ltb, List, [], ◌∷◌, none, some,
  get_elem?, set, length, replicate, get_elem?-set_self, get_elem?-set_ne, length-set, Bool-cases,
  inl, inr,
}
use rockchip_kmpp.Prelude.Maybe.{◌>>=◌, >>=-some, >>=-none}
use rockchip_kmpp.RefTypes.{StFrmCfg, RefCfg}
use rockchip_kmpp.RefCheck.{copy_in, add_st_cfg, set_cfg_cnt, no_st}

module _ {ℓ} {A : Type ℓ} where
  -- What a copy leaves in an array.
  abbrev Copied : List A → ℕ → List A → List A → Type ℓ
  Copied arr at xs out =
      (length out ≡ length arr)
      × ((j : ℕ) → j < at → get_elem? out j ≡ get_elem? arr j)
      × ((j : ℕ) → j < length xs → get_elem? out (at + j) ≡ get_elem? xs j)

  copy_in-total :
      (arr : List A) (at : ℕ) (xs : List A)
      → at + length xs ≤ length arr
      → (out : List A) × (copy_in arr at xs ≡ some out) × Copied arr at xs out
  unfolding copy_in
  copy_in-total arr at [] h = (arr, refl, (refl, λ j l. refl, λ j l. absurd (omega arith)))
  copy_in-total arr at (x ∷ xs) h =
      let len = length-set arr at x in
      let (out, e, copied) = copy_in-total (set arr at x) (at + 1) xs (omega arith) in
      (
        out,
        rw room e,
        (
          copied.0 ∙ len,
          λ j l. copied.1 j (omega arith) ∙ get_elem?-set_ne arr x (ne j l),
          inner out copied.1 copied.2,
        ),
      )
    where
      room : ltb at (length arr) ≡ true
      room = ground arith

      ne : (j : ℕ) → j < at → at ≢ j
      ne j l = omega arith

      inner :
          (out : List A)
          → ((j : ℕ) → j < at + 1 → get_elem? out j ≡ get_elem? (set arr at x) j)
          → ((j : ℕ) → j < length xs → get_elem? out (at + 1 + j) ≡ get_elem? xs j)
          → (j : ℕ) → j < suc (length xs)
          → get_elem? out (at + j) ≡ get_elem? (x ∷ xs) j
      inner out before inside zero l =
          ap (λ n. get_elem? out n) (omega arith)
          ∙ before at (omega arith)
          ∙ get_elem?-set_self arr at x (omega arith)
      inner out before inside (suc j) l =
          ap (λ n. get_elem? out n) (omega arith) ∙ inside j (omega arith)

  copy_in-overrun :
      (arr : List A) (at : ℕ) (xs : List A)
      → at ≤ length arr
      → length arr < at + length xs
      → copy_in arr at xs ≡ none
  unfolding copy_in
  copy_in-overrun arr at [] l h = absurd (omega arith)
  copy_in-overrun arr at (x ∷ xs) l h = elim (Bool-cases (ltb at (length arr))) [
    | inl room ↦
        let len = length-set arr at x in
        rw room (copy_in-overrun (set arr at x) (at + 1) xs (ground arith) (omega arith))
    | inr full ↦ rw full refl
  ]

length-replicate : {A : Type 0} (n : ℕ) (x : A) → length (replicate n x) ≡ n
length-replicate zero x = refl
length-replicate (suc n) x = ap suc (length-replicate n x)

-- Two adds of short-term entries, one after the other, to a configuration that is set up anew, for
-- as many entries as the first add has at least: if there is room for both, the configuration has
-- the first entries and behind them the second ones, in their order; if not, the second
-- mpp_enc_ref_cfg_add_st_cfg writes its last entries behind the end of the array.
pub add_st_cfg_lem :
    (p : RefCfg) (lt_cnt st_cnt : ℕ) (xs ys : List StFrmCfg)
    → length xs ≤ st_cnt
    → let twice = add_st_cfg (set_cfg_cnt p lt_cnt st_cnt) xs >>= (λ q. add_st_cfg q ys) in
      (length xs + length ys ≤ st_cnt
        → (p' : RefCfg) × (twice ≡ some p')
          × (p'.st_cfg_cnt ≡ length xs + length ys)
          × ((j : ℕ) → j < length xs → get_elem? p'.st_cfg j ≡ get_elem? xs j)
          × ((j : ℕ) → j < length ys → get_elem? p'.st_cfg (length xs + j) ≡ get_elem? ys j))
      × (st_cnt < length xs + length ys → twice ≡ none)
unfolding add_st_cfg set_cfg_cnt
add_st_cfg_lem p lt_cnt st_cnt xs ys first =
    let len = length-replicate st_cnt no_st in
    let (one, e, copied) = copy_in-total (replicate st_cnt no_st) 0 xs (omega arith) in
    let long = copied.0 ∙ len in
    let q : RefCfg = record (set_cfg_cnt p lt_cnt st_cnt) {
      st_cfg = one;
      st_cfg_cnt = 0 + length xs;
    } in
    let added : add_st_cfg (set_cfg_cnt p lt_cnt st_cnt) xs ≡ some q = >>=-some _ e refl in
    (
      λ h.
          let (two, e', copied') = copy_in-total one (length xs) ys (omega arith) in
          (
            record q { st_cfg = two; st_cfg_cnt = length xs + length ys },
            >>=-some _ added (
                >>=-some _ (ap (λ n. copy_in one n ys) (omega arith) ∙ e')
                  (ap (λ n. some (record q { st_cfg = two; st_cfg_cnt = n })) (omega arith))),
            refl,
            λ j l. copied'.1 j l ∙ ap (λ n. get_elem? one n) (omega arith) ∙ copied.2 j l,
            copied'.2,
          ),
      λ h. >>=-some _ added (
          >>=-none _ (
            ap (λ n. copy_in one n ys) (omega arith)
            ∙ copy_in-overrun one (length xs) ys (omega arith) (omega arith))),
    )
