-- ===== src/Prelude/Ret.antt =====
-- The return codes of vcodec/inc/mpp_err.h that the modelled code uses.
-- `ok` is 0, which the code reads as false; every other value is true.
use mathlib.Core.Bool.{Bool, true, false}

-- MPP_RET
pub data Ret : Type 0 where
  ok nok err_unknow err_null_ptr err_malloc err_value err_read_bit : Ret

-- `if (ret)`
abbrev pub is_err : Ret → Bool
is_err ok = false
is_err _ = true
