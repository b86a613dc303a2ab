-- ===== src/H264/Marking/Queue.antt =====
-- The operations are read in the order in which they were written.
use rockchip_kmpp.Prelude.{
  ℕ, zero, suc, ◌+◌, ◌≤◌, ◌<◌, ◌≡◌, refl, sym, subst, ap, ap₂, ◌∙◌, arith, List, [], ◌∷◌, length,
  true, false, leb, ◌==◌, if◌then◌else◌,
}
use rockchip_kmpp.Prelude.Ret.{Ret, ok, is_err}
use rockchip_kmpp.H264.Marking.{Ops, wr_op, rd_op, wr_rewind, rd_rewind}

module _ {A : Type 0} where
  -- Operations written one behind the other, and the first error.
  unfoldable pub wr_ops : Ops A → List A → Ret × Ops A
  wr_ops q [] = (ok, q)
  wr_ops q (x ∷ xs) =
      let r = wr_op q x in let rest = wr_ops r.1 xs in if is_err r.0 then r else rest

  -- What is read until a read fails.
  unfoldable pub rd_ops : ℕ → Ops A → A → List A
  rd_ops zero q old = []
  rd_ops (suc cnt) q old =
      let r = rd_op q old in let rest = rd_ops cnt r.1 r.2 in if is_err r.0 then [] else r.2 ∷ rest

  -- So many entries from `i` on.
  abbrev pub entries : (ℕ → A) → ℕ → ℕ → List A
  entries ops i zero = []
  entries ops i (suc n) = ops i ∷ entries ops (i + 1) n

  -- What writing comes to that has room.
  pub record Written (q : Ops A) (xs : List A) (r : Ret × Ops A) : Type 0 where
    pub code : r.0 ≡ ok
    pub end : r.1.wr_cnt ≡ q.wr_cnt + length xs
    pub start : r.1.rd_cnt ≡ q.rd_cnt
    pub held : entries r.1.ops q.wr_cnt (length xs) ≡ xs
    pub kept : (i : ℕ) → i < q.wr_cnt → r.1.ops i ≡ q.ops i

  abbrev pushed : Ops A → A → Ops A
  pushed q x = record q { ops = λ i. if i == q.wr_cnt then x else q.ops i; wr_cnt = q.wr_cnt + 1 }

  wr_ops-cons :
      (q : Ops A) (x : A) (xs : List A)
      → q.wr_cnt < q.size
      → wr_ops q (x ∷ xs) ≡ wr_ops (pushed q x) xs
  unfolding wr_ops wr_op
  wr_ops-cons q x xs h = let room : leb q.size q.wr_cnt ≡ false = ground arith in rw room refl

  pub wr_ops-Written :
      (q : Ops A) (xs : List A) → q.wr_cnt + length xs ≤ q.size → Written q xs (wr_ops q xs)
  unfolding wr_ops
  wr_ops-Written q [] h = record {
    code = refl;
    end = omega arith;
    start = refl;
    held = refl;
    kept = λ i lt. refl;
  }
  wr_ops-Written q (x ∷ xs) h =
      let w = wr_ops-Written (pushed q x) xs (omega (arith, h)) in
      let here : (pushed q x).ops q.wr_cnt ≡ x =
        let e : (q.wr_cnt == q.wr_cnt) ≡ true = ground arith in rw e refl in
      subst (Written q (x ∷ xs)) (sym (wr_ops-cons q x xs (omega (arith, h)))) (record {
        code = w.code;
        end = omega (arith, w.end);
        start = w.start;
        held = ap₂ (λ (y : A) ys. y ∷ ys) (w.kept q.wr_cnt (omega arith) ∙ here) w.held;
        kept = λ i lt.
            w.kept i (omega (arith, lt))
            ∙ (let e : (i == q.wr_cnt) ≡ false = ground (arith, lt) in rw e refl);
      })

  pub rd_ops_lem :
      (n : ℕ) (q : Ops A) (old : A)
      → q.rd_cnt + n ≡ q.wr_cnt
      → rd_ops (suc n) q old ≡ entries q.ops q.rd_cnt n
  unfolding rd_ops rd_op
  rd_ops_lem zero q old e = let done : leb q.wr_cnt q.rd_cnt ≡ true = ground arith in rw done refl
  rd_ops_lem (suc n) q old e =
      let some : leb q.wr_cnt q.rd_cnt ≡ false = ground arith in
      rw some (ap (λ (t : List A). q.ops q.rd_cnt ∷ t) (rd_ops_lem n _ _ (omega (arith, e))))

  -- Operations for which a queue has room, written from its start without an error, are read back
  -- from its start in their order, and then reading fails.
  pub rd_ops-wr_ops :
      (q : Ops A) (xs : List A) (old : A)
      → length xs ≤ q.size
      → let r = wr_ops (wr_rewind q) xs in
        (r.0 ≡ ok) × (rd_ops (suc (length xs)) (rd_rewind r.1) old ≡ xs)
  rd_ops-wr_ops q xs old h =
      let w = wr_ops-Written (wr_rewind q) xs (omega arith) in
      let r = wr_ops (wr_rewind q) xs in
      (w.code, rd_ops_lem (length xs) (rd_rewind r.1) old (sym w.end) ∙ w.held)
