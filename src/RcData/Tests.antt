-- ===== src/RcData/Tests.antt =====
-- Runs of the statistics on small inputs.
use rockchip_kmpp.Prelude.{◌≡◌, refl, arith, some}
use rockchip_kmpp.Prelude.Int.{pos, negsuc, ◌+ℤ◌, ◌-ℤ◌, ◌*ℤ◌}
use rockchip_kmpp.RcData.{Data, data_reset, data_update, data_get_pre_val, data_mean, pre_pos}
use rockchip_kmpp.RcData.Window.{Keeps, push, data_update-Keeps}

abbrev blank : Data
blank = record { size = 3; len = 0; pos_w = 0; pos_r = 0; val = λ _. negsuc 8; sum = pos 0 }

-- Three values of 10, and then 40.
abbrev started : Data
started = data_reset blank (pos 10)

abbrev updated : Data
updated = data_update started (pos 40)

updated_mean : data_mean updated ≡ pos 20
unfolding data_mean data_update data_reset ◌+ℤ◌ ◌-ℤ◌ ◌*ℤ◌
updated_mean = refl

updated_pre_val : data_get_pre_val updated (negsuc 2) ≡ some (pos 40)
unfolding data_get_pre_val pre_pos data_update data_reset ◌+ℤ◌ ◌-ℤ◌ ◌*ℤ◌
updated_pre_val = refl

started-Keeps : Keeps started (λ _. pos 10)
unfolding data_reset ◌*ℤ◌ ◌+ℤ◌
started-Keeps = record {
  some_size = omega arith;
  pos_lt = omega arith;
  full = refl;
  values = λ k l. ground arith;
  summed = refl;
}

data_update-Keeps_example : Keeps updated (push (pos 40) (λ _. pos 10))
data_update-Keeps_example = data_update-Keeps started (λ _. pos 10) (pos 40) started-Keeps

updated_size : updated.size ≡ 3
unfolding data_update data_reset
updated_size = refl

updated-Keeps : Keeps updated (push (pos 40) (λ _. pos 10))
updated-Keeps = data_update-Keeps started (λ _. pos 10) (pos 40) started-Keeps
