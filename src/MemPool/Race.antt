-- ===== src/MemPool/Race.antt =====
-- Two callers of mpp_mem_pool_get_f at once.
use mathlib.Core.Path.{subst}
use rockchip_kmpp.Prelude.{
  ℕ, ◌+◌, ◌^◌, ◌<◌, ◌≡◌, ap, ◌∙◌, sym, arith, Bool, false, leb, if◌then◌else◌, [], ◌∷◌, ◌++◌,
  length, length-append,
}
use rockchip_kmpp.Prelude.Int.{pos, ◌+ℤ◌}
use rockchip_kmpp.Prelude.Cast.{low_bits}
use rockchip_kmpp.MemPool.{MemPool, take_node, full, wants_new, add_node}
use rockchip_kmpp.MemPool.Calls.{limit}

wants_new-lt :
    (p : MemPool) (n : ℕ)
    → p.unused ≡ []
    → p.unused_count ≡ pos 0
    → p.used_count ≡ pos n
    → n < p.max_cnt
    → p.max_cnt < 2 ^ 31
    → take_node p ≡ (p, wants_new)
unfolding take_node
wants_new-lt p n e c u l m =
    subst (λ us. take_node (record p { unused = us }) ≡ (record p { unused = us }, wants_new))
      (sym e) (ap (λ (b : Bool). (record p { unused = [] }, if b then full else wants_new)) test)
  where
    more : leb p.max_cnt n ≡ false
    more = ground arith

    test : leb p.max_cnt (low_bits 32 (p.unused_count +ℤ p.used_count)) ≡ false
    test = limit p.max_cnt n p.unused_count p.used_count c u (omega arith) m ∙ more

-- On a pool with no unused block and a place for one more, two callers that both pass the test of
-- the limit before either adds its block make the pool pass its limit by one.
pub get_race :
    (p : MemPool) (first second : ℕ)
    → p.unused ≡ []
    → p.unused_count ≡ pos 0
    → p.used_count ≡ pos (length p.used)
    → length p.used + 1 ≡ p.max_cnt
    → p.max_cnt < 2 ^ 31
    → (take_node p ≡ (p, wants_new))
      × (length (add_node (add_node p first) second).used ≡ p.max_cnt + 1)
unfolding add_node
get_race p first second e c u last m = (
  wants_new-lt p (length p.used) e c u (omega arith) m,
  omega (
    arith,
    length-append (p.used ++ (first ∷ [])) (second ∷ []),
    length-append p.used (first ∷ []),
  ),
)
