-- ===== src/EncRefs/Sizes.antt =====
-- The buffer sizes that mpp_enc_refs_dryrun finds: how far back its frames refer.
use rockchip_kmpp.Prelude.{
  ℕ, zero, suc, ◌+◌, ◌<◌, ◌≡◌, Option, none, some, get_elem?, List, [], ◌∷◌, ◌++◌, ◌⊎◌,
}
use rockchip_kmpp.RefTypes.{StFrmCfg, RefCfg}
use rockchip_kmpp.Cpb.{VirtualCpb, cleanup_cpb_refs}
use rockchip_kmpp.EncRefs.{EncRefs}
use rockchip_kmpp.EncRefs.Dryrun.{Dry, dry_rounds}
use rockchip_kmpp.EncRefs.Depth.{RefersBack}

-- So many frames of one short-term configuration.
abbrev pub times : ℕ → StFrmCfg → List StFrmCfg
times zero s = []
times (suc n) s = s ∷ times n s

-- One configuration is repeated as it says.
abbrev pub repeated : Option StFrmCfg → List StFrmCfg
repeated none = []
repeated (some s) = times (dry_rounds s) s

-- The frames of the configurations of an array, `left` of them from the index `i` on.
abbrev pub frames_of : ℕ → ℕ → List StFrmCfg → List StFrmCfg
frames_of zero i arr = []
frames_of (suc left) i arr = repeated (get_elem? arr i) ++ frames_of left (i + 1) arr

-- The state that the dry run starts from.
abbrev pub clean_start : VirtualCpb → Dry
clean_start cpb = record { cpb = cleanup_cpb_refs cpb; cpb_st_used_size = 0; seq_idx = 0 }

-- The frames of a configuration.
abbrev pub frames : RefCfg → List StFrmCfg
frames cfg = frames_of cfg.st_cfg_cnt 0 cfg.st_cfg

-- So many short-term cells are as many as the frames refer back, and at least one.
abbrev pub Suffices : RefCfg → VirtualCpb → ℕ → Type 0
Suffices cfg cpb n =
    let Back = RefersBack cfg.lt_cfg_cnt (frames cfg) (clean_start cpb) in
    ((i : ℕ) → Back i → i < n) × ((n ≡ 1) ⊎ ((i : ℕ) × Back i × (n ≡ i + 1)))
