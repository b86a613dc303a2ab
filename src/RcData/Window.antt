-- ===== src/RcData/Window.antt =====
-- The statistics keep the last values, the latest first.
use native.Mathlib.Nat.{mul-suc, mul-zero}
use rockchip_kmpp.Prelude.{
  ℕ, zero, suc, ◌+◌, ◌-◌, ◌<◌, ◌≡◌, refl, ap, ◌∙◌, sym, arith, true, ltb, ◌==◌, if◌then◌else◌, none,
  some,
}
use rockchip_kmpp.Prelude.Int.{
  ℤ, pos, pos_part, ltb_ℤ, ◌+ℤ◌, ◌-ℤ◌, ◌*ℤ◌, int_laws, +ℤ_assoc, +ℤ_comm, +ℤ_cancel, neg_part,
}
use rockchip_kmpp.Prelude.Ret.{ok}
use rockchip_kmpp.RcData.{
  Data, data_reset, data_init, data_update, counted, pre_pos, data_get_pre_val,
}

-- The values by age, the latest at 0.
abbrev pub push : ℤ → (ℕ → ℤ) → ℕ → ℤ
push v w zero = v
push v w (suc k) = w k

abbrev pub total : ℕ → (ℕ → ℤ) → ℤ
total zero w = pos 0
total (suc n) w = total n w +ℤ w n

-- Where the value of an age stands.
abbrev pub slot : ℕ → ℕ → ℕ → ℕ
slot size pos_w k = if ltb k pos_w then pos_w - 1 - k else size + pos_w - 1 - k

pub record Keeps (p : Data) (w : ℕ → ℤ) : Type 0 where
  pub some_size : 0 < p.size
  pub pos_lt : p.pos_w < p.size
  pub full : p.pos_r ≡ p.size
  pub values : (k : ℕ) → k < p.size → p.val (slot p.size p.pos_w k) ≡ w k
  pub summed : p.sum ≡ total p.size w

total-push : (n : ℕ) (v : ℤ) (w : ℕ → ℤ) → total (suc n) (push v w) ≡ v +ℤ total n w
total-push zero v w = omega int_laws
total-push (suc n) v w = ap (λ z. z +ℤ w n) (total-push n v w) ∙ +ℤ_assoc v (total n w) (w n)

mul_suc : (v : ℤ) (n : ℕ) → v *ℤ pos n +ℤ v ≡ v *ℤ pos (suc n)
unfolding ◌*ℤ◌ ◌+ℤ◌
mul_suc v n = ground (
  arith,
  mul-suc (pos_part v) n,
  mul-suc (neg_part v) n,
  mul-zero (pos_part v),
  mul-zero (neg_part v),
)

total-const : (n : ℕ) (v : ℤ) → total n (λ _. v) ≡ v *ℤ pos n
unfolding ◌*ℤ◌
total-const zero v = ground (arith, mul-zero (pos_part v), mul-zero (neg_part v))
total-const (suc n) v = ap (λ z. z +ℤ v) (total-const n v) ∙ mul_suc v n

module _ (p : Data) (w : ℕ → ℤ) (v : ℤ) (h : Keeps p w) where
  -- The slot that is written holds the oldest value.
  oldest : (m : ℕ) → p.size ≡ suc m → p.val p.pos_w ≡ w m
  oldest m e = ap p.val (ground (arith, h.pos_lt)) ∙ h.values m (omega arith)

  new_sum : (m : ℕ) → p.size ≡ suc m → p.sum -ℤ p.val p.pos_w +ℤ v ≡ total p.size (push v w)
  new_sum m e =
      ap (λ s. s -ℤ p.val p.pos_w +ℤ v) (h.summed ∙ ap (λ (n : ℕ). total n w) e)
      ∙ ap (λ x. total m w +ℤ w m -ℤ x +ℤ v) (oldest m e)
      ∙ ap (λ s. s +ℤ v) (+ℤ_cancel (total m w) (w m))
      ∙ +ℤ_comm (total m w) v
      ∙ sym (ap (λ (n : ℕ). total n (push v w)) e ∙ total-push m v w)

  new_values :
      (k : ℕ)
      → k < p.size
      → (data_update p v).val (slot p.size (data_update p v).pos_w k) ≡ push v w k
  unfolding data_update
  new_values zero l = ground (arith, h.pos_lt)
  new_values (suc k) l = let old = h.values k (omega arith) in ground (arith, h.pos_lt)

  -- On statistics that keep the values of a window, the latest first, and their sum, an update puts
  -- its value in front: the oldest one leaves, and the sum is that of the new window.
  pub data_update-Keeps : Keeps (data_update p v) (push v w)
  unfolding data_update
  data_update-Keeps = record {
    some_size = h.some_size;
    pos_lt = ground (arith, h.some_size, h.pos_lt);
    full = ground (arith, h.full, h.some_size);
    values = new_values;
    summed = simp is_full (new_sum (p.size - 1) (omega (arith, h.some_size)));
  }
    where
      is_full : (p.pos_r == p.size) ≡ true
      is_full = ground (arith, h.full)

-- mpp_data_init_v2 with a positive size succeeds, and keeps a window of nothing but its value.
data_init-Keeps :
    (memory : ℕ → ℤ) (n : ℕ) (value : ℤ)
    → (p : Data) × (data_init memory (pos (suc n)) value ≡ (ok, some p)) × Keeps p (λ _. value)
unfolding data_init data_reset
data_init-Keeps memory n value =
    let start : Data = record {
      size = suc n;
      len = 0;
      pos_w = 0;
      pos_r = 0;
      val = memory;
      sum = pos 0;
    } in
    (
      data_reset start value,
      rw positive refl,
      record {
        some_size = omega arith;
        pos_lt = omega arith;
        full = refl;
        values = λ k l. ground arith;
        summed = sym (total-const (suc n) value);
      },
    )
  where
    positive : ltb_ℤ (pos 0) (pos (suc n)) ≡ true
    positive = ground arith

pre_pos-slot :
    (size pos_w k : ℕ)
    → pos_w < size
    → k < size
    → pre_pos size pos_w (pos k) ≡ pos (slot size pos_w k)
unfolding pre_pos ◌-ℤ◌
pre_pos-slot size pos_w k h l = ground arith

counted-back : (size k : ℕ) → k < size → counted size (pos k -ℤ pos size) ≡ pos k
unfolding ◌-ℤ◌ ◌+ℤ◌
counted-back size k l = ground arith

counted-id : (size k : ℕ) → counted size (pos k) ≡ pos k
counted-id size k = ground arith

-- On statistics that keep a window, its value of age k (0 for the last) is what
-- mpp_data_get_pre_val_v2 returns for k, and for k minus the size: a negative index counts from the
-- oldest value.
data_get_pre_val_lem :
    (p : Data) (w : ℕ → ℤ) (k : ℕ)
    → Keeps p w
    → k < p.size
    → (data_get_pre_val p (pos k) ≡ some (w k))
      × (data_get_pre_val p (pos k -ℤ pos p.size) ≡ some (w k))
unfolding data_get_pre_val
data_get_pre_val_lem p w k h l =
    let at = pre_pos-slot p.size p.pos_w k h.pos_lt l in
    (rw (counted-id p.size k, at) found, rw (counted-back p.size k l, at) found)
  where
    found :
        (if ltb_ℤ (pos (slot p.size p.pos_w k)) (pos 0)
          then none
          else if ltb (slot p.size p.pos_w k) p.size
          then some (p.val (slot p.size p.pos_w k))
          else none)
        ≡ some (w k)
    found = rw (h.values k l) (ground (arith, h.pos_lt))
