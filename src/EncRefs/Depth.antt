-- ===== src/EncRefs/Depth.antt =====
-- How far back the frames of a dry run of vcodec/mpp/base/mpp_enc_refs.c refer, and the used size
-- that mpp_enc_refs_dryrun counts.
use mathlib.Core.Path.{subst}
use rockchip_kmpp.Prelude.{
  ℕ, ◌+◌, ◌≤◌, ◌<◌, ◌≡◌, refl, ap, ◌∙◌, sym, arith, false, if◌then◌else◌, ltb, Option, none, some,
  List, [], ◌∷◌, ◌⊎◌, inl, inr, Bool-cases,
}
use rockchip_kmpp.Prelude.Maybe.{◌>>=◌, >>=-eq-some, some-cancel}
use rockchip_kmpp.RefTypes.{FrmStatus, StFrmCfg}
use rockchip_kmpp.Cpb.{VirtualCpb, check_ref_cpb_pos, get_ref_from_cpb, set_st_cfg_to_frm}
use rockchip_kmpp.EncRefs.NextFrame.{lt_counters, lt_loop}
use rockchip_kmpp.EncRefs.Dryrun.{Dry, grow_used, dry_frame}

some-of-none : {A : Type 0} {a : A} → (none ≡ some a) → ⊥
some-of-none e = cc

-- The next frame refers to a frame at the position `cpb_pos` of the short-term cells.
abbrev pub Looks : ℕ → StFrmCfg → Dry → ℕ → Type 0
Looks k s d cpb_pos =
    let l = lt_loop k 0 d.cpb.lt_cnter (set_st_cfg_to_frm d.seq_idx s, false) in
    let cpb = record (d.cpb) { lt_cnter = l.0 } in
    (ref : FrmStatus) × (get_ref_from_cpb cpb l.1.0 ≡ some (some ref))
    × (check_ref_cpb_pos cpb ref ≡ some cpb_pos)
    × (cpb_pos < 16)

-- One of the frames, each met with what those before it have left, refers to that position.
abbrev pub RefersBack : ℕ → List StFrmCfg → Dry → ℕ → Type 0
RefersBack k [] d cpb_pos = ⊥
RefersBack k (s ∷ xs) d cpb_pos =
    Looks k s d cpb_pos ⊎ ((d' : Dry) × (dry_frame k s d ≡ some d') × RefersBack k xs d' cpb_pos)

-- `n` covers `old` and the positions of `P`, and no more.
abbrev pub Covers : ℕ → (ℕ → Type 0) → ℕ → Type 0
Covers old P n = (old ≤ n) × ((i : ℕ) → P i → i < n) × ((n ≡ old) ⊎ ((i : ℕ) × P i × (n ≡ i + 1)))

-- A found reference lies at a position of the short-term cells.
abbrev At : VirtualCpb → Option FrmStatus → ℕ → Type 0
At cpb r i = (ref : FrmStatus) × (r ≡ some ref) × (check_ref_cpb_pos cpb ref ≡ some i) × (i < 16)

grow_used-Covers :
    (cpb : VirtualCpb) (r : Option FrmStatus) (used : ℕ)
    → Covers used (At cpb r) (grow_used cpb r used)
unfolding grow_used
grow_used-Covers cpb none used = (omega arith, λ i h. cc (h.1), inl refl)
grow_used-Covers cpb (some ref) used = go (check_ref_cpb_pos cpb ref) refl
  where
    same :
        (o : Option ℕ)
        → check_ref_cpb_pos cpb ref ≡ o
        → (i : ℕ) → At cpb (some ref) i
        → (o ≡ some i) × (i < 16)
    same o e i (ref', q, at, low) = (cc, low)

    go :
        (o : Option ℕ)
        → check_ref_cpb_pos cpb ref ≡ o
        → Covers used (At cpb (some ref)) (elim o as (λ _. ℕ) [
          | none ↦ used
          | some cpb_pos ↦
              if ltb cpb_pos 16
              then (if ltb used (cpb_pos + 1) then cpb_pos + 1 else used)
              else used
        ])
    go none e = (omega arith, λ i h. absurd (some-of-none (same none e i h).0), inl refl)
    go (some p) e = elim (Bool-cases (ltb p 16)) [
      | inr high ↦ rw high (
        omega arith,
        λ i h. let (q, low) = same (some p) e i h in ground (arith, some-cancel q),
        inl refl,
      )
      | inl low ↦ elim (Bool-cases (ltb used (p + 1))) [
        | inl more ↦
            rw (low, more)
              (
                ground arith,
                λ i h. let (q, _) = same (some p) e i h in omega (arith, some-cancel q),
                inr (p, (ref, refl, e, ground arith), refl),
              )
        | inr less ↦
            rw (low, less)
              (
                omega arith,
                λ i h. let (q, _) = same (some p) e i h in ground (arith, some-cancel q),
                inl refl,
              )
      ]
    ]

-- One frame of the dry run.
dry_frame-Covers :
    (k : ℕ) (s : StFrmCfg) (d : Dry) {d' : Dry}
    → dry_frame k s d ≡ some d'
    → Covers d.cpb_st_used_size (Looks k s d) d'.cpb_st_used_size
unfolding dry_frame
dry_frame-Covers k s d {d'} e =
    let l = lt_loop k 0 d.cpb.lt_cnter (set_st_cfg_to_frm d.seq_idx s, false) in
    let cpb = record (d.cpb) { lt_cnter = l.0 } in
    let (_, _, r₀) = >>=-eq-some (lt_counters k) _ e in
    let (found, got, r) = >>=-eq-some (get_ref_from_cpb cpb l.1.0) _ r₀ in
    let (up, all, tight) = grow_used-Covers cpb found d.cpb_st_used_size in
    subst (λ x. Covers d.cpb_st_used_size (Looks k s d) x.cpb_st_used_size) (some-cancel r)
      (
        up,
        λ i (ref, q, at, low). all i (ref, some-cancel (sym got ∙ q), at, low),
        elim tight [
          | inl kept ↦ inl kept
          | inr (i, (ref, q, at, low), grown) ↦ inr (i, (ref, got ∙ ap some q, at, low), grown)
        ],
      )

-- Frames one behind the other.
abbrev pub dry_frames : ℕ → List StFrmCfg → Dry → Option Dry
dry_frames k [] d = some d
dry_frames k (s ∷ xs) d = dry_frame k s d >>= dry_frames k xs

pub dry_frames-Covers :
    (k : ℕ) (xs : List StFrmCfg) (d : Dry) {d' : Dry}
    → dry_frames k xs d ≡ some d'
    → Covers d.cpb_st_used_size (RefersBack k xs d) d'.cpb_st_used_size
dry_frames-Covers k [] d e =
    subst (λ x. Covers d.cpb_st_used_size (RefersBack k [] d) x.cpb_st_used_size) (some-cancel e)
      (omega arith, λ i h. absurd h, inl refl)
dry_frames-Covers k (s ∷ xs) d {d'} e =
    let (next, one, rest) = >>=-eq-some (dry_frame k s d) (dry_frames k xs) e in
    let (up, all, tight) = dry_frame-Covers k s d one in
    let (up', all', tight') = dry_frames-Covers k xs next rest in
    (
      omega (arith, up, up'),
      λ i h. elim h [
        | inl now ↦ omega (arith, all i now, up')
        | inr (d₁, q, later) ↦
            all' i (subst (λ x. RefersBack k xs x i) (some-cancel (sym q ∙ one)) later)
      ],
      elim tight' [
        | inr (i, later, grown) ↦ inr (i, inr (next, one, later), grown)
        | inl kept' ↦ elim tight [
          | inl kept ↦ inl (kept' ∙ kept)
          | inr (i, now, grown) ↦ inr (i, inl now, kept' ∙ grown)
        ]
      ],
    )
