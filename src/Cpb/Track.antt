-- ===== src/Cpb/Track.antt =====
-- The buffer answers every reference mode as the history of the reference frames does.
use rockchip_kmpp.Prelude.{
  ℕ, zero, suc, ◌+◌, ◌≤◌, ◌<◌, ◌≡◌, refl, ◌∙◌, arith, if◌then◌else◌, true, false, Bool-cases, inl,
  inr, [], ◌∷◌, Option, none, some,
}
use rockchip_kmpp.Prelude.Word.{update}
use rockchip_kmpp.RefTypes.{FrmStatus, ref_to_prev_intra}
use rockchip_kmpp.Cpb.{
  VirtualCpb, cleanup_cpb_refs, store_lt, store_st, store_ref_to_cpb, find_lt_cell,
}
use rockchip_kmpp.Cpb.History.{History, latest, nth_st, pick, remember, is_st, has_tid, has_lt_idx}
use rockchip_kmpp.Cpb.Window.{slide-head}

-- The cells that the reference modes read hold what the history says.
pub record Tracks (cpb : VirtualCpb) (h : History) : Type 0 where
  pub prev : cpb.mode_refs 0 ≡ latest (λ _. true) h
  pub prev_st : cpb.mode_refs 1 ≡ latest is_st h
  pub prev_lt : cpb.mode_refs 2 ≡ latest (λ f. f.is_lt_ref) h
  pub prev_intra : cpb.mode_refs 3 ≡ latest (λ f. f.is_intra) h
  pub layer : (t : ℕ) → cpb.st_tid_refs t ≡ latest (has_tid t) h
  pub lt_frame : (k : ℕ) → cpb.lt_idx_refs k ≡ latest (has_lt_idx k) h
  pub window : (i : ℕ) → i < 16 → cpb.cpb_refs i ≡ nth_st h i

-- A clean buffer has no history.
pub cleanup-Tracks : (cpb : VirtualCpb) → Tracks (cleanup_cpb_refs cpb) []
unfolding cleanup_cpb_refs
cleanup-Tracks cpb = record {
  prev = refl;
  prev_st = refl;
  prev_lt = refl;
  prev_intra = refl;
  layer = λ t. refl;
  lt_frame = λ k. refl;
  window = λ i h. refl;
}

find_lt_cell-ge :
    (arr : ℕ → FrmStatus) (k left i j : ℕ) → find_lt_cell arr k left i ≡ some j → 16 ≤ j
unfolding find_lt_cell
find_lt_cell-ge arr k zero i j e = ground arith
find_lt_cell-ge arr k (suc left) i j e = ground (arith, find_lt_cell-ge arr k left (i + 1) j)

-- A long-term frame is stored outside of the window.
store_lt-window :
    (cpb : VirtualCpb) (f : FrmStatus) (i : ℕ)
    → i < 16
    → (store_lt cpb f).cpb_refs i ≡ cpb.cpb_refs i
unfolding store_lt
store_lt-window cpb f i h = go (find_lt_cell cpb.cpb_refs f.lt_idx 16 0) refl
  where
    go :
        (o : Option ℕ)
        → find_lt_cell cpb.cpb_refs f.lt_idx 16 0 ≡ o
        → (elim o as (λ _. ℕ → FrmStatus) [
          | none ↦ cpb.cpb_refs
          | some j ↦ update cpb.cpb_refs j f
        ])
            i
          ≡ cpb.cpb_refs i
    go none e = refl
    go (some j) e = ground (arith, find_lt_cell-ge cpb.cpb_refs f.lt_idx 16 0 j e)

store_st-window :
    (cpb : VirtualCpb) (f : FrmStatus) (i : ℕ)
    → i < 16
    → (store_st cpb f).cpb_refs i ≡ pick f cpb.cpb_refs i
unfolding store_st
store_st-window cpb f i h = slide-head cpb.cpb_refs f i h

pick-ext :
    (f : FrmStatus) (g h : ℕ → FrmStatus) (n i : ℕ)
    → ((j : ℕ) → j < n → g j ≡ h j)
    → i < suc n
    → pick f g i ≡ pick f h i
pick-ext f g h n zero e p = refl
pick-ext f g h n (suc i) e p = e i (omega arith)

nth_st-cons :
    (f : FrmStatus) (h : History) (i : ℕ)
    → f.is_lt_ref ≡ false
    → pick f (nth_st h) i ≡ nth_st (f ∷ h) i
nth_st-cons f h i st = ground arith

-- The buffer after the intra frame has been noted.
abbrev noted : VirtualCpb → FrmStatus → VirtualCpb
noted cpb f =
    if f.is_intra then record cpb { mode_refs = update cpb.mode_refs ref_to_prev_intra f } else cpb

module _ (cpb : VirtualCpb) (f : FrmStatus) (h : History) (v : Tracks cpb h) where
  store_lt-Tracks : f.is_lt_ref ≡ true → Tracks (store_lt (noted cpb f) f) (f ∷ h)
  unfolding store_lt
  store_lt-Tracks lt = record {
    prev = ground arith;
    prev_st = ground arith;
    prev_lt = ground arith;
    prev_intra = ground arith;
    layer = λ t. ground (arith, v.layer t);
    lt_frame = λ k. ground (arith, v.lt_frame k);
    window = λ i p. store_lt-window (noted cpb f) f i p ∙ same_refs i ∙ rw lt (v.window i p);
  }
    where
      same_refs : (i : ℕ) → (noted cpb f).cpb_refs i ≡ cpb.cpb_refs i
      same_refs i = ground arith

  store_st-Tracks : f.is_lt_ref ≡ false → Tracks (store_st (noted cpb f) f) (f ∷ h)
  unfolding store_st
  store_st-Tracks st = record {
    prev = ground arith;
    prev_st = ground arith;
    prev_lt = ground arith;
    prev_intra = ground arith;
    layer = λ t. ground (arith, v.layer t);
    lt_frame = λ k. ground (arith, v.lt_frame k);
    window = λ i p.
        store_st-window (noted cpb f) f i p
        ∙ pick-ext f (noted cpb f).cpb_refs (nth_st h) 15 i same_refs p
        ∙ nth_st-cons f h i st;
  }
    where
      same_refs : (j : ℕ) → j < 15 → (noted cpb f).cpb_refs j ≡ nth_st h j
      same_refs j q = ground (arith, v.window j)

  -- On a buffer that answers each mode as a history does, store_ref_to_cpb puts the frame into that
  -- history, unless it is marked as no reference.
  pub store_ref_to_cpb-Tracks : Tracks (store_ref_to_cpb cpb f) (remember f h)
  unfolding store_ref_to_cpb
  store_ref_to_cpb-Tracks = elim (Bool-cases f.is_non_ref) [
    | inl out ↦ simp out v
    | inr kept ↦ elim (Bool-cases f.is_lt_ref) [
      | inl lt ↦ simp (kept, lt) (store_lt-Tracks lt)
      | inr st ↦ simp (kept, st) (store_st-Tracks st)
    ]
  ]
