-- ===== src/MemPool/Tests.antt =====
-- Runs of a pool.
use rockchip_kmpp.Prelude.{◌+◌, ◌≤◌, ◌≡◌, refl, arith, true, false, [], ◌∷◌, some, length}
use rockchip_kmpp.Prelude.Int.{pos, ◌+ℤ◌}
use rockchip_kmpp.Links.{occurs}
use rockchip_kmpp.MemPool.{MemPool, get_pool, take_node, wants_new, add_node, pool_get, pool_put}
use rockchip_kmpp.MemPool.Blocks.{IsPool, get_pool-IsPool}
use rockchip_kmpp.MemPool.Calls.{Given, IsFresh, pool_get-IsPool, pool_put-IsPool}
use rockchip_kmpp.MemPool.Race.{get_race}

-- A pool of up to two blocks, with the block at 100 in use.
abbrev empty : MemPool
empty = get_pool (λ _. false) 64 2

abbrev one : MemPool
one = (pool_get empty (some 100)).0

one_state :
    (one.used ≡ 100 ∷ [])
    × (one.unused ≡ [])
    × (one.unused_count ≡ pos 0)
    × (one.used_count ≡ pos 1)
    × (one.max_cnt ≡ 2)
unfolding get_pool pool_get take_node add_node ◌+ℤ◌
one_state = (refl, refl, refl, refl, refl)

empty-IsPool : IsPool empty
empty-IsPool = get_pool-IsPool (λ _. false) 64 2 (omega arith)

first-IsFresh : IsFresh empty (some 100)
unfolding get_pool
first-IsFresh n e = refl

pool_get-IsPool_example : IsPool one × Given empty (pool_get empty (some 100))
pool_get-IsPool_example = pool_get-IsPool empty (some 100) empty-IsPool first-IsFresh

one-IsPool : IsPool one
one-IsPool = let (v, _) = pool_get-IsPool empty (some 100) empty-IsPool first-IsFresh in v

stands : 1 ≤ occurs 100 one.used
unfolding get_pool pool_get take_node add_node ◌+ℤ◌
stands = omega arith

pool_put-IsPool_example :
    IsPool (pool_put one 100)
    × (occurs 100 (pool_put one 100).unused ≡ 1)
    × (pool_put (pool_put one 100) 100 ≡ pool_put one 100)
pool_put-IsPool_example = pool_put-IsPool one 100 one-IsPool stands

-- A pool in that state, written out.
abbrev almost : MemPool
almost = record {
  size = 64;
  used = 100 ∷ [];
  unused = [];
  used_count = pos 1;
  unused_count = pos 0;
  max_cnt = 2;
  check = λ n. true;
}

get_race_example :
    (take_node almost ≡ (almost, wants_new))
    × (length (add_node (add_node almost 200) 300).used ≡ 2 + 1)
get_race_example = get_race almost 200 300 refl refl refl refl (omega arith)
