-- ===== src/Cpb/Window.antt =====
-- The sliding window of store_ref_to_cpb: every short-term cell takes what stood before it.
use native.Mathlib.Decide.{dec_lt}
use rockchip_kmpp.Prelude.{ℕ, zero, suc, ◌<◌, ◌≡◌, refl, ◌∙◌, arith}
use rockchip_kmpp.Prelude.Word.{update}
use rockchip_kmpp.RefTypes.{FrmStatus}
use rockchip_kmpp.Cpb.{slide}
use rockchip_kmpp.Cpb.History.{pick}

-- Cells above the window stay.
pub slide-above : (n : ℕ) (arr : ℕ → FrmStatus) (i : ℕ) → n < i → slide n arr i ≡ arr i
unfolding slide
slide-above zero arr i h = refl
slide-above (suc n) arr i h =
    slide-above n (update arr (suc n) (arr n)) i (omega arith) ∙ ground arith

pub slide-suc : (n : ℕ) (arr : ℕ → FrmStatus) (i : ℕ) → i < n → slide n arr (suc i) ≡ arr i
unfolding slide
slide-suc zero arr i h = absurd (omega arith)
slide-suc (suc n) arr i h = elim (dec_lt i n) [
  | yes below ↦ slide-suc n (update arr (suc n) (arr n)) i below ∙ ground arith
  | no top ↦
      let e : i ≡ n = omega arith in
      slide-above n (update arr (suc n) (arr n)) (suc i) (omega arith) ∙ rw e (ground arith)
]

-- The window after a frame has entered it.
pub slide-head :
    (arr : ℕ → FrmStatus) (f : FrmStatus) (i : ℕ)
    → i < 16
    → update (slide 15 arr) 0 f i ≡ pick f arr i
slide-head arr f zero h = refl
slide-head arr f (suc i) h = ground (arith, slide-suc 15 arr i)
