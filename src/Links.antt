-- ===== src/Links.antt =====
-- Linked lists of nodes, the front first, as <linux/list.h> links them.
use rockchip_kmpp.Prelude.{
  ℕ, ◌+◌, ◌-◌, ◌≡◌, refl, arith, false, ◌==◌, if◌then◌else◌, List, [], ◌∷◌, ◌++◌, length, min,
}

-- list_del
abbrev pub list_del : ℕ → List ℕ → List ℕ
list_del i [] = []
list_del i (j ∷ js) = if i == j then js else j ∷ list_del i js

-- How often a node stands in a list.
abbrev pub occurs : ℕ → List ℕ → ℕ
occurs i [] = 0
occurs i (j ∷ js) = (if i == j then 1 else 0) + occurs i js

pub occurs-append : (i : ℕ) (xs ys : List ℕ) → occurs i (xs ++ ys) ≡ occurs i xs + occurs i ys
occurs-append i [] ys = omega arith
occurs-append i (x ∷ xs) ys = omega (arith, occurs-append i xs ys)

pub occurs-del_self : (i : ℕ) (xs : List ℕ) → occurs i (list_del i xs) ≡ occurs i xs - 1
occurs-del_self i [] = refl
occurs-del_self i (x ∷ xs) = ground (arith, occurs-del_self i xs)

pub occurs-del_other :
    (i j : ℕ) (xs : List ℕ) → (i == j) ≡ false → occurs j (list_del i xs) ≡ occurs j xs
occurs-del_other i j [] ne = refl
occurs-del_other i j (x ∷ xs) ne = ground (arith, occurs-del_other i j xs ne)

pub length-del : (i : ℕ) (xs : List ℕ) → length xs ≡ length (list_del i xs) + min 1 (occurs i xs)
length-del i [] = refl
length-del i (x ∷ xs) = ground (arith, length-del i xs)
