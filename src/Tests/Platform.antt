-- ===== src/Tests/Platform.antt =====
-- A concrete platform: strings are compared byte by byte, the tree is not balanced and is rebuilt
-- after a deletion, and the slab grants a number of allocations.
use ngx_cache_pilot.Base.{
  ℕ, zero, suc, ◌+◌, Bytes, Bool, true, false, ◌≡◌, refl, ap, List, [], ◌∷◌, Ordering, arith, ltb,
  leb, ◌&&◌, ◌-◌, Option, some, none, if◌then◌else◌, ◌==ᵇ◌, remove_first, map,
}
use Prim.Native.Nat.{compare}
use ngx_cache_pilot.Nginx.{Nginx}
use ngx_cache_pilot.Tree.{Tree, sentinel, branch, to_list}
use ngx_cache_pilot.Tree.Order.{IsTotal}

abbrev pub compare_bytes : Bytes → Bytes → Ordering
compare_bytes [] [] = Ordering.eq
compare_bytes [] (y ∷ ys) = Ordering.lt
compare_bytes (x ∷ xs) [] = Ordering.gt
compare_bytes (x ∷ xs) (y ∷ ys) = elim (compare x y) [
  | Ordering.lt ↦ Ordering.lt
  | Ordering.gt ↦ Ordering.gt
  | Ordering.eq ↦ compare_bytes xs ys
]

pub compare_bytes-IsTotal : IsTotal compare_bytes
compare_bytes-IsTotal = record {
  eq_of = eq_of;
  refl_of = refl_of;
  gt_of = gt_of;
  lt_of = lt_of;
  trans_of = trans_of;
}
  where
    eq_of : (a b : Bytes) → compare_bytes a b ≡ Ordering.eq → a ≡ b
    eq_of [] [] e = refl
    eq_of [] (y ∷ ys) e = cc
    eq_of (x ∷ xs) [] e = cc
    eq_of (x ∷ xs) (y ∷ ys) e = ground (arith, eq_of xs ys)

    refl_of : (a : Bytes) → compare_bytes a a ≡ Ordering.eq
    refl_of [] = refl
    refl_of (x ∷ xs) = ground (arith, refl_of xs)

    gt_of : (a b : Bytes) → compare_bytes a b ≡ Ordering.lt → compare_bytes b a ≡ Ordering.gt
    gt_of [] [] e = cc
    gt_of [] (y ∷ ys) e = refl
    gt_of (x ∷ xs) [] e = cc
    gt_of (x ∷ xs) (y ∷ ys) e = ground (arith, gt_of xs ys)

    lt_of : (a b : Bytes) → compare_bytes a b ≡ Ordering.gt → compare_bytes b a ≡ Ordering.lt
    lt_of [] [] e = cc
    lt_of [] (y ∷ ys) e = cc
    lt_of (x ∷ xs) [] e = refl
    lt_of (x ∷ xs) (y ∷ ys) e = ground (arith, lt_of xs ys)

    trans_of :
        (a b c : Bytes)
        → compare_bytes a b ≡ Ordering.lt
        → compare_bytes b c ≡ Ordering.lt
        → compare_bytes a c ≡ Ordering.lt
    trans_of [] [] c e f = cc
    trans_of [] (y ∷ ys) [] e f = cc
    trans_of [] (y ∷ ys) (z ∷ zs) e f = refl
    trans_of (x ∷ xs) [] c e f = cc
    trans_of (x ∷ xs) (y ∷ ys) [] e f = cc
    trans_of (x ∷ xs) (y ∷ ys) (z ∷ zs) e f = ground (arith, trans_of xs ys zs)

abbrev pub spine : {A : Type 0} → List A → Tree A
spine [] = sentinel
spine (x ∷ xs) = branch sentinel x (spine xs)

pub to_list-spine : {A : Type 0} (xs : List A) → to_list (spine xs) ≡ xs
to_list-spine [] = refl
to_list-spine (x ∷ xs) = ap (◌∷◌ x) (to_list-spine xs)

abbrev pub sum : Bytes → ℕ
sum [] = 0
sum (x ∷ xs) = x + sum xs

abbrev pub lower : ℕ → ℕ
lower c = if ltb 64 c then (if ltb c 91 then c + 32 else c) else c

abbrev pub hex_digit : ℕ → Option ℕ
hex_digit c =
    if leb 48 c && leb c 57
    then some (c - 48)
    else if leb 97 c && leb c 102
    then some (c - 87)
    else none

abbrev pub slab_alloc : ℕ → ℕ → ℕ × Bool
slab_alloc zero size = (zero, false)
slab_alloc (suc left) size = (left, true)

abbrev pub platform : Nginx
platform = record {
  memn2cmp = compare_bytes;
  memn2cmp_total = compare_bytes-IsTotal;
  crc32_short = sum;
  crc32_long = λ s. sum s + 1;
  hextoi = hex_digit;
  word_of = sum;
  memcmp = compare_bytes;
  memcmp_total = compare_bytes-IsTotal;
  nocase = λ a b. map lower a ==ᵇ map lower b;
  rebalance = λ A t. t;
  rebalance_keeps = λ A t. refl;
  rbtree_delete = λ A hit t. spine (remove_first hit (to_list t));
  rbtree_delete_lem = λ A hit t. to_list-spine (remove_first hit (to_list t));
  Slab = ℕ;
  slab_alloc = slab_alloc;
  slab_free = λ slab block. suc slab;
  sizeof_zone = 200;
  sizeof_file = 120;
  sizeof_entry = 60;
  sizeof_member = 40;
}
