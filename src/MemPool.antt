-- ===== src/MemPool.antt =====
-- vcodec/mpp/base/mpp_mem_pool.c: the pool of equal blocks. A node stands for its block. The lock
-- makes a step of each stretch of code that it guards: mpp_mem_pool_get_f has two, with the
-- allocation between them. The check of the pool itself, its name and the release of the pool are
-- left out.
pub mod Blocks
pub mod Calls
pub mod Race
pub mod Tests
use rockchip_kmpp.Prelude.{
  ℕ, Bool, true, false, leb, ◌==◌, if◌then◌else◌, List, [], ◌∷◌, ◌++◌, Option, none, some,
}
use rockchip_kmpp.Prelude.Int.{ℤ, pos, ◌+ℤ◌, ◌-ℤ◌}
use rockchip_kmpp.Prelude.Cast.{low_bits}
use rockchip_kmpp.Links.{list_del}

-- MppMemPoolImpl, and of its nodes whether `check` is the node itself.
pub record MemPool : Type 0 where
  pub size : ℕ
  pub used : List ℕ
  pub unused : List ℕ
  pub used_count : ℤ
  pub unused_count : ℤ
  pub max_cnt : ℕ
  pub check : ℕ → Bool

-- mpp_mem_get_pool_f. What memory holds where a node may come to be is a parameter.
unfoldable pub get_pool : (ℕ → Bool) → ℕ → ℕ → MemPool
get_pool memory size max_cnt = record {
  size = size;
  used = [];
  unused = [];
  used_count = pos 0;
  unused_count = pos 0;
  max_cnt = max_cnt;
  check = memory;
}

abbrev pub set_check : (ℕ → Bool) → ℕ → Bool → ℕ → Bool
set_check check node b n = if n == node then b else check n

-- The outcome of the first stretch of mpp_mem_pool_get_f.
pub data Taken : Type 0 where
  took : ℕ → Taken
  full : Taken
  wants_new : Taken

-- The first stretch: an unused node, or the test of the limit, whose sum is compared as a 32-bit
-- word.
unfoldable pub take_node : MemPool → MemPool × Taken
take_node p =
    let at_limit = leb p.max_cnt (low_bits 32 (p.unused_count +ℤ p.used_count)) in
    elim p.unused [
      | [] ↦ (p, if at_limit then full else wants_new)
      | node ∷ rest ↦ (
        record p {
          unused = rest;
          used = p.used ++ (node ∷ []);
          unused_count = p.unused_count -ℤ pos 1;
          used_count = p.used_count +ℤ pos 1;
          check = set_check p.check node true;
        },
        took node,
      )
    ]

-- The second stretch: a new node joins.
unfoldable pub add_node : MemPool → ℕ → MemPool
add_node p node = record p {
  used = p.used ++ (node ∷ []);
  used_count = p.used_count +ℤ pos 1;
  check = set_check p.check node true;
}

-- mpp_mem_pool_get_f without another caller in between. `alloc` is what the allocation returns, if
-- it is called.
unfoldable pub pool_get : MemPool → Option ℕ → MemPool × Option ℕ
pool_get p alloc =
    let (p', taken) = take_node p in
    let added : MemPool × Option ℕ = elim alloc [
      | none ↦ (p', none)
      | some node ↦ (add_node p' node, some node)
    ] in
    elim taken [ took node ↦ (p', some node) | full ↦ (p', none) | wants_new ↦ added ]

-- The stretch of mpp_mem_pool_put_f that is guarded.
abbrev pub put_back : MemPool → ℕ → MemPool
put_back p node = record p {
  used = list_del node p.used;
  unused = node ∷ list_del node p.unused;
  used_count = p.used_count -ℤ pos 1;
  unused_count = p.unused_count +ℤ pos 1;
  check = set_check p.check node false;
}

-- mpp_mem_pool_put_f: a block that is not marked is refused.
unfoldable pub pool_put : MemPool → ℕ → MemPool
pool_put p node = if p.check node then put_back p node else p
