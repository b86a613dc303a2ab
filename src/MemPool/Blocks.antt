-- ===== src/MemPool/Blocks.antt =====
-- The blocks of a pool: each is used, unused or not of the pool, the counts are the lengths, and a
-- caller alone never makes the pool pass its limit.
use rockchip_kmpp.Prelude.{
  ℕ, ◌+◌, ◌^◌, ◌≤◌, ◌<◌, ◌≡◌, refl, arith, Bool, true, false, ◌==◌, List, [], ◌∷◌, ◌++◌, length,
  length-append, Bool-cases, inl, inr,
}
use rockchip_kmpp.Prelude.Int.{pos}
use rockchip_kmpp.Links.{
  list_del, occurs, occurs-append, occurs-del_self, occurs-del_other, length-del,
}
use rockchip_kmpp.MemPool.{MemPool, get_pool, set_check}

-- Two lists of nodes, and which nodes are marked.
pub record Lists (used unused : List ℕ) (check : ℕ → Bool) (most : ℕ) : Type 0 where
  pub once : (n : ℕ) → occurs n used + occurs n unused ≤ 1
  pub marked : (n : ℕ) → 1 ≤ occurs n used → check n ≡ true
  pub unmarked : (n : ℕ) → 1 ≤ occurs n unused → check n ≡ false
  pub within : length used + length unused ≤ most

pub record IsPool (p : MemPool) : Type 0 where
  pub lists : Lists p.used p.unused p.check p.max_cnt
  pub used_len : p.used_count ≡ pos (length p.used)
  pub unused_len : p.unused_count ≡ pos (length p.unused)
  pub max_lt : p.max_cnt < 2 ^ 31

-- mpp_mem_get_pool_f with a limit below 2 ^ 31 makes a pool in order: no node in a list, and the
-- counts 0.
pub get_pool-IsPool :
    (memory : ℕ → Bool) (size max_cnt : ℕ)
    → max_cnt < 2 ^ 31
    → IsPool (get_pool memory size max_cnt)
unfolding get_pool
get_pool-IsPool memory size max_cnt h = record {
  lists = record {
    once = λ n. omega arith;
    marked = λ n l. absurd (omega arith);
    unmarked = λ n l. absurd (omega arith);
    within = omega arith;
  };
  used_len = refl;
  unused_len = refl;
  max_lt = h;
}

-- The node at the front of the unused list goes to the end of the used list.
pub move-Lists :
    (used rest : List ℕ) (check : ℕ → Bool) (most node : ℕ)
    → Lists used (node ∷ rest) check most
    → Lists (used ++ (node ∷ [])) rest (set_check check node true) most
move-Lists used rest check most node v = record {
  once = λ n. ground (arith, occurs-append n used (node ∷ []), v.once n);
  marked = λ n l. ground (arith, occurs-append n used (node ∷ []), v.marked n);
  unmarked = λ n l. ground (arith, v.once n, v.unmarked n);
  within = ground (arith, length-append used (node ∷ []), v.within);
}

-- A new node.
pub add-Lists :
    (used : List ℕ) (check : ℕ → Bool) (most node : ℕ)
    → Lists used [] check most
    → occurs node used ≡ 0
    → length used < most
    → Lists (used ++ (node ∷ [])) [] (set_check check node true) most
add-Lists used check most node v fresh room = record {
  once = λ n. ground (arith, occurs-append n used (node ∷ []), v.once n);
  marked = λ n l. ground (arith, occurs-append n used (node ∷ []), v.marked n);
  unmarked = λ n l. absurd (omega arith);
  within = ground (arith, length-append used (node ∷ []));
}

-- A used node goes to the front of the unused list.
pub put-Lists :
    (used unused : List ℕ) (check : ℕ → Bool) (most node : ℕ)
    → Lists used unused check most
    → 1 ≤ occurs node used
    → Lists (list_del node used) (node ∷ list_del node unused) (set_check check node false) most
put-Lists used unused check most node v is = record {
  once = once;
  marked = marked;
  unmarked = unmarked;
  within = omega (arith, length-del node used, length-del node unused, v.within, v.once node);
}
  where
    once : (n : ℕ) → occurs n (list_del node used) + occurs n (node ∷ list_del node unused) ≤ 1
    once n = elim (Bool-cases (node == n)) [
      | inl e ↦
          let same : node ≡ n = ground arith in
          ground (arith, occurs-del_self node used, occurs-del_self node unused, v.once node)
      | inr e ↦
          ground (arith, occurs-del_other node n used e, occurs-del_other node n unused e, v.once n)
    ]

    marked : (n : ℕ) → 1 ≤ occurs n (list_del node used) → set_check check node false n ≡ true
    marked n l = elim (Bool-cases (node == n)) [
      | inl e ↦
          let same : node ≡ n = ground arith in
          absurd (ground (arith, occurs-del_self node used, v.once node))
      | inr e ↦ ground (arith, occurs-del_other node n used e, v.marked n)
    ]

    unmarked :
        (n : ℕ) → 1 ≤ occurs n (node ∷ list_del node unused) → set_check check node false n ≡ false
    unmarked n l = elim (Bool-cases (node == n)) [
      | inl e ↦ ground arith
      | inr e ↦ ground (arith, occurs-del_other node n unused e, v.unmarked n)
    ]
