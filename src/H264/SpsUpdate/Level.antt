-- ===== src/H264/SpsUpdate/Level.antt =====
-- The level that h264e_sps_update chooses.
use mathlib.Core.List.{Memᴰ}
use rockchip_kmpp.Prelude.{
  ℕ, ◌≤◌, ◌≡◌, ◌≢◌, refl, sym, subst, ap, ◌∙◌, arith, List, [], ◌∷◌, Bool, true, false, ltb, leb,
  not, ◌==◌, ◌&&◌, ◌||◌, if◌then◌else◌, Bool-cases, leb→le, inl, inr,
}
use rockchip_kmpp.H264.SpsUpdate.{
  SpsCfg, LevelInfo, level_1_b, level_infos, raise_level, frame_mbs, sps_update,
}

all : (LevelInfo → Bool) → List LevelInfo → Bool
all p [] = true
all p (e ∷ es) = p e && all p es

and-true : (a b : Bool) → (a && b) ≡ true → (a ≡ true) × (b ≡ true)
and-true a b h = ground (arith, h)

all-Memᴰ :
    (p : LevelInfo → Bool) (es : List LevelInfo) (e : LevelInfo)
    → Memᴰ e es
    → all p es ≡ true
    → p e ≡ true
unfolding all
all-Memᴰ p [] e m h = elim m [ ]
all-Memᴰ p (x ∷ es) e (Memᴰ.head q) h = ap p q ∙ (and-true (p x) (all p es) h).0
all-Memᴰ p (x ∷ es) e (Memᴰ.tail m) h = all-Memᴰ p es e m (and-true (p x) (all p es) h).1

-- The largest frame of a level, in macroblocks; 0 for a number that is no level.
unfoldable pub limit : List LevelInfo → ℕ → ℕ
limit [] level = 0
limit (e ∷ es) level = let rest = limit es level in if e.level == level then e.max_mbs else rest

-- What the first level with room makes of the configured one.
abbrev outcome : LevelInfo → ℕ → ℕ
outcome e level = if ltb level e.level && not (e.level == level_1_b) then e.level else level

raise_level-outcome :
    (es : List LevelInfo) (mbs level : ℕ) (t : LevelInfo)
    → Memᴰ t es
    → mbs ≤ t.max_mbs
    → (e : LevelInfo) × Memᴰ e es × (mbs ≤ e.max_mbs) × (raise_level es mbs level ≡ outcome e level)
unfolding raise_level
raise_level-outcome [] mbs level t m h = elim m [ ]
raise_level-outcome (e ∷ es) mbs level t m h = elim (Bool-cases (leb mbs e.max_mbs)) [
  | inl fits ↦ (e, Memᴰ.head refl, leb→le mbs e.max_mbs fits, rw fits refl)
  | inr full ↦
      let (e', m', h', o) = raise_level-outcome es mbs level t (later full m) h in
      (e', Memᴰ.tail m', h', step full e' o)
]
  where
    later : leb mbs e.max_mbs ≡ false → Memᴰ t (e ∷ es) → Memᴰ t es
    later full (Memᴰ.head q) = ground (arith, ap (λ (x : LevelInfo). x.max_mbs) q)
    later full (Memᴰ.tail m) = m

    step :
        leb mbs e.max_mbs ≡ false
        → (e' : LevelInfo) → raise_level es mbs level ≡ outcome e' level
        → raise_level (e ∷ es) mbs level ≡ outcome e' level
    step full e' o = rw full o

-- Each outcome is a level with room for what the first level with room holds.
abbrev keeps_room : LevelInfo → LevelInfo → Bool
keeps_room e l = (l.level == level_1_b) || leb e.max_mbs (limit level_infos (outcome e l.level))

all_room : all (λ e. all (keeps_room e) level_infos) level_infos ≡ true
unfolding all limit
all_room = refl

left_false : (v a b : ℕ) → v ≢ level_1_b → ((v == level_1_b) || leb a b) ≡ true → a ≤ b
left_false v a b n h = ground arith

-- The levels rise, 1b aside.
abbrev below : LevelInfo → LevelInfo → Bool
below e f = (e.level == level_1_b) || ((f.level == level_1_b) || leb e.level f.level)

rises : List LevelInfo → Bool
rises [] = true
rises (e ∷ es) = all (below e) es && rises es

level_infos-rises : rises level_infos ≡ true
unfolding rises all
level_infos-rises = refl

raise_level-least :
    (es : List LevelInfo) (mbs level : ℕ) (f : LevelInfo)
    → rises es ≡ true
    → Memᴰ f es
    → f.level ≢ level_1_b
    → mbs ≤ f.max_mbs
    → level ≤ f.level
    → raise_level es mbs level ≤ f.level
unfolding raise_level rises
raise_level-least [] mbs level f r m n h k = elim m [ ]
raise_level-least (e ∷ es) mbs level f r (Memᴰ.head q) n h k =
    let level_eq : f.level ≡ e.level = ap (λ (x : LevelInfo). x.level) q in
    let max_eq : f.max_mbs ≡ e.max_mbs = ap (λ (x : LevelInfo). x.max_mbs) q in
    ground (arith, level_eq, max_eq)
raise_level-least (e ∷ es) mbs level f r (Memᴰ.tail m) n h k =
    let (now, rest) = and-true (all (below e) es) (rises es) r in
    let under = all-Memᴰ (below e) es f m now in
    let later = raise_level-least es mbs level f rest m n h k in ground (arith, under, later, n)

-- Let the configured level be one of the table other than 1b, and let some level of the table have
-- room for the frame. Then h264e_sps_update sets the level to one with room for the frame, which is
-- at least the configured one, and no other level of the table with both properties but 1b is lower.
pub sps_update-level :
    (cfg : SpsCfg) (l t : LevelInfo)
    → Memᴰ l level_infos
    → l.level ≢ level_1_b
    → cfg.level ≡ l.level
    → Memᴰ t level_infos
    → frame_mbs cfg ≤ t.max_mbs
    → (frame_mbs cfg ≤ limit level_infos (sps_update cfg).level_idc)
      × (cfg.level ≤ (sps_update cfg).level_idc)
      × ((f : LevelInfo)
          → Memᴰ f level_infos
          → f.level ≢ level_1_b
          → cfg.level ≤ f.level
          → frame_mbs cfg ≤ f.max_mbs
          → (sps_update cfg).level_idc ≤ f.level)
unfolding sps_update
sps_update-level cfg l t m n e m' h =
    let (first, at, fits, o) = raise_level-outcome level_infos (frame_mbs cfg) cfg.level t m' h in
    let room =
      all-Memᴰ (keeps_room first) level_infos l m
        (all-Memᴰ (λ e. all (keeps_room e) level_infos) level_infos first at all_room) in
    let kept =
      left_false l.level first.max_mbs (limit level_infos (outcome first l.level)) n room in
    let wide : first.max_mbs
        ≤ limit level_infos (raise_level level_infos (frame_mbs cfg) cfg.level) =
      rw o (subst (λ v. first.max_mbs ≤ limit level_infos (outcome first v)) (sym e) kept) in
    (
      omega (arith, fits, wide),
      rw o (ground arith),
      λ f at_f not_1b low room_f.
          raise_level-least level_infos (frame_mbs cfg) cfg.level f level_infos-rises at_f not_1b
            room_f low,
    )
