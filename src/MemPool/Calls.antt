-- ===== src/MemPool/Calls.antt =====
-- mpp_mem_pool_get_f and mpp_mem_pool_put_f keep a pool in order.
use mathlib.Core.Path.{subst}
use rockchip_kmpp.Prelude.{
  ℕ, suc, ◌+◌, ◌^◌, ◌≤◌, ◌<◌, ◌≡◌, refl, ap, ◌∙◌, sym, arith, Bool, true, false, leb, if◌then◌else◌,
  List, [], ◌∷◌, length, length-append, Option, none, some,
}
use rockchip_kmpp.Prelude.Int.{ℤ, pos, ◌+ℤ◌, ◌-ℤ◌}
use rockchip_kmpp.Prelude.Cast.{low_bits}
use rockchip_kmpp.Links.{list_del, occurs, occurs-append, occurs-del_self, length-del}
use rockchip_kmpp.MemPool.{
  MemPool, take_node, took, full, wants_new, add_node, pool_get, put_back, pool_put,
}
use rockchip_kmpp.MemPool.Blocks.{IsPool, move-Lists, add-Lists, put-Lists}

-- What a call gives: nothing, or a block that was not used and now is.
abbrev pub Given : MemPool → MemPool × Option ℕ → Type 0
Given p (p', none) = (p'.used ≡ p.used) × (p'.unused ≡ p.unused)
Given p (p', some n) = (occurs n p.used ≡ 0) × (occurs n p'.used ≡ 1)

-- A node that the allocation returns is none of the used ones.
abbrev pub IsFresh : MemPool → Option ℕ → Type 0
IsFresh p alloc = (n : ℕ) → alloc ≡ some n → occurs n p.used ≡ 0

more : (z : ℤ) (n : ℕ) → z ≡ pos n → z +ℤ pos 1 ≡ pos (n + 1)
unfolding ◌+ℤ◌
more z n e = rw e (ground arith)

less : (z : ℤ) (n : ℕ) → z ≡ pos (suc n) → z -ℤ pos 1 ≡ pos n
unfolding ◌-ℤ◌
less z n e = rw e (ground arith)

-- The limit's test on an empty unused list.
pub limit :
    (max n : ℕ) (a b : ℤ)
    → a ≡ pos 0
    → b ≡ pos n
    → n ≤ max
    → max < 2 ^ 31
    → leb max (low_bits 32 (a +ℤ b)) ≡ leb max n
unfolding ◌+ℤ◌
limit max n a b e e' h l = rw (e, e') (ground arith)

add_node-IsPool :
    (p : MemPool) (node : ℕ)
    → IsPool p
    → p.unused ≡ []
    → occurs node p.used ≡ 0
    → length p.used < p.max_cnt
    → IsPool (add_node p node) × (occurs node (add_node p node).used ≡ 1)
unfolding add_node
add_node-IsPool p node v none_left fresh room = (
  record {
    lists =
        rw none_left (add-Lists p.used p.check p.max_cnt node (rw none_left at v.lists) fresh room);
    used_len =
        more p.used_count (length p.used) v.used_len
        ∙ ap pos (sym (length-append p.used (node ∷ [])));
    unused_len = v.unused_len;
    max_lt = v.max_lt;
  },
  ground (arith, occurs-append node p.used (node ∷ []), fresh),
)

-- A pool with its list of unused nodes.
abbrev with_unused : MemPool → List ℕ → MemPool
with_unused p us = record p { unused = us }

-- The call on an empty unused list, by its two tests.
abbrev get_new : MemPool → Bool → Option ℕ → MemPool × Option ℕ
get_new p true alloc = (p, none)
get_new p false none = (p, none)
get_new p false (some node) = (add_node p node, some node)

get_new-IsPool :
    (p : MemPool) (at_limit : Bool) (alloc : Option ℕ)
    → IsPool p
    → p.unused ≡ []
    → IsFresh p alloc
    → (at_limit ≡ false → length p.used < p.max_cnt)
    → IsPool (get_new p at_limit alloc).0 × Given p (get_new p at_limit alloc)
get_new-IsPool p true alloc v e fresh room = (v, (refl, refl))
get_new-IsPool p false none v e fresh room = (v, (refl, refl))
get_new-IsPool p false (some node) v e fresh room =
    let (w, stands) = add_node-IsPool p node v e (fresh node refl) (room refl) in
    (w, (fresh node refl, stands))

pool_get-new :
    (p : MemPool) (alloc : Option ℕ)
    → pool_get (with_unused p []) alloc
      ≡ get_new
          (with_unused p [])
          (leb p.max_cnt (low_bits 32 (p.unused_count +ℤ p.used_count)))
          alloc
unfolding pool_get take_node
pool_get-new p alloc = by_case (leb p.max_cnt (low_bits 32 (p.unused_count +ℤ p.used_count))) alloc
  where
    by_case :
        (b : Bool) (a : Option ℕ)
        → (elim (if b then full else wants_new) as (λ _. MemPool × Option ℕ) [
          | took node ↦ (with_unused p [], some node)
          | full ↦ (with_unused p [], none)
          | wants_new ↦ elim a [
            | none ↦ (with_unused p [], none)
            | some node ↦ (add_node (with_unused p []) node, some node)
          ]
        ])
          ≡ get_new (with_unused p []) b a
    by_case true a = refl
    by_case false none = refl
    by_case false (some node) = refl

pool_get-took :
    (p : MemPool) (node : ℕ) (rest : List ℕ) (alloc : Option ℕ)
    → IsPool (with_unused p (node ∷ rest))
    → IsPool (pool_get (with_unused p (node ∷ rest)) alloc).0
      × Given (with_unused p (node ∷ rest)) (pool_get (with_unused p (node ∷ rest)) alloc)
unfolding pool_get take_node
pool_get-took p node rest alloc v =
    let once = v.lists.once node in
    (
      record {
        lists = move-Lists p.used rest p.check p.max_cnt node v.lists;
        used_len =
            more p.used_count (length p.used) v.used_len
            ∙ ap pos (sym (length-append p.used (node ∷ [])));
        unused_len = less p.unused_count (length rest) v.unused_len;
        max_lt = v.max_lt;
      },
      (ground arith, ground (arith, occurs-append node p.used (node ∷ []))),
    )

-- On a pool in order (each node in one list at most, those in use marked, the counts right, and
-- within a limit below 2 ^ 31), mpp_mem_pool_get_f, with no other caller in between and an
-- allocation that returns no block in use, leaves a pool in order, thus within its limit. It gives
-- a block that was not in use, or none and then changes no list.
pub pool_get-IsPool :
    (p : MemPool) (alloc : Option ℕ)
    → IsPool p
    → IsFresh p alloc
    → IsPool (pool_get p alloc).0 × Given p (pool_get p alloc)
pool_get-IsPool p alloc v fresh = go p.unused v
  where
    go :
        (us : List ℕ)
        → IsPool (with_unused p us)
        → IsPool (pool_get (with_unused p us) alloc).0
          × Given (with_unused p us) (pool_get (with_unused p us) alloc)
    go (node ∷ rest) w = pool_get-took p node rest alloc w
    go [] w =
        let room : leb p.max_cnt (low_bits 32 (p.unused_count +ℤ p.used_count)) ≡ false
            → length p.used < p.max_cnt =
          λ e.
            let same =
              limit p.max_cnt (length p.used) p.unused_count p.used_count w.unused_len w.used_len
                (omega (arith, w.lists.within)) w.max_lt in
            ground (arith, sym same ∙ e) in
        subst (λ r. IsPool r.0 × Given (with_unused p []) r) (sym (pool_get-new p alloc))
          (get_new-IsPool (with_unused p []) _ alloc w refl fresh room)

pool_put-marked : (p : MemPool) (node : ℕ) → p.check node ≡ true → pool_put p node ≡ put_back p node
unfolding pool_put
pool_put-marked p node e = ap (λ (b : Bool). if b then put_back p node else p) e

pool_put-refused : (p : MemPool) (node : ℕ) → p.check node ≡ false → pool_put p node ≡ p
unfolding pool_put
pool_put-refused p node e = ap (λ (b : Bool). if b then put_back p node else p) e

put_back-IsPool :
    (p : MemPool) (node : ℕ)
    → IsPool p
    → 1 ≤ occurs node p.used
    → IsPool (put_back p node) × (occurs node (put_back p node).unused ≡ 1)
put_back-IsPool p node v is =
    let once = v.lists.once node in
    (
      record {
        lists = put-Lists p.used p.unused p.check p.max_cnt node v.lists is;
        used_len =
            less p.used_count (length (list_del node p.used))
              (v.used_len ∙ ap pos (omega (arith, length-del node p.used)));
        unused_len =
            more p.unused_count (length p.unused) v.unused_len
            ∙ ap pos (omega (arith, length-del node p.unused));
        max_lt = v.max_lt;
      },
      ground (arith, occurs-del_self node p.unused),
    )

-- On a pool in order mpp_mem_pool_put_f of a block in use leaves a pool in order, with the block
-- among the unused ones; and to put it again changes nothing.
pub pool_put-IsPool :
    (p : MemPool) (node : ℕ)
    → IsPool p
    → 1 ≤ occurs node p.used
    → IsPool (pool_put p node)
      × (occurs node (pool_put p node).unused ≡ 1)
      × (pool_put (pool_put p node) node ≡ pool_put p node)
pool_put-IsPool p node v is =
    let (w, stands) = put_back-IsPool p node v is in
    let put = pool_put-marked p node (v.lists.marked node is) in
    let unmarked = w.lists.unmarked node (omega (arith, stands)) in
    (
      subst IsPool (sym put) w,
      ap (λ q. occurs node q.unused) put ∙ stands,
      ap (λ q. pool_put q node) put ∙ pool_put-refused (put_back p node) node unmarked ∙ sym put,
    )
