-- ===== src/Runtime/Ordered.antt =====
-- The worker's index of the zones as an ordered list of nodes, and the lookup in it.
use ngx_cache_pilot.Base.{
  ℕ, ◌<◌, ◌≤◌, ◌==◌, ltb, ◌≡◌, ◌≢◌, refl, sym, ap, ◌∙◌, Option, none, some, List, [], ◌∷◌, ◌++◌,
  if◌then◌else◌, All, All-append_split, Bool-cases, inl, inr, arith,
}
use ngx_cache_pilot.Tree.{Tree, sentinel, branch, to_list}
use ngx_cache_pilot.Runtime.{ZoneIndex, lookup_zone_index}

abbrev pub cache_of : ZoneIndex → ℕ
cache_of x = x.zone.cache

-- In order, each cache once.
abbrev pub InOrder : List ZoneIndex → Type 0
InOrder [] = Unit {0}
InOrder (x ∷ xs) = All (λ y. cache_of x < cache_of y) xs × InOrder xs

abbrev pub find_node : ℕ → List ZoneIndex → Option ZoneIndex
find_node c [] = none
find_node c (x ∷ xs) = if cache_of x == c then some x else find_node c xs

pub find_node-append :
    (c : ℕ) (xs ys : List ZoneIndex)
    → find_node c (xs ++ ys) ≡ elim (find_node c xs) [ none ↦ find_node c ys | some x ↦ some x ]
find_node-append c [] ys = refl
find_node-append c (x ∷ xs) ys = elim (Bool-cases (cache_of x == c)) [
  | inl hit ↦ rw hit refl
  | inr miss ↦ rw miss (find_node-append c xs ys)
]

pub find_node-none :
    (c : ℕ) (xs : List ZoneIndex) → All (λ y. cache_of y ≢ c) xs → find_node c xs ≡ none
find_node-none c [] h = refl
find_node-none c (x ∷ xs) (h, hs) = ground (arith, h, find_node-none c xs hs)

-- The parts of an ordered list around one of its nodes.
pub record Around (l : List ZoneIndex) (x : ZoneIndex) (r : List ZoneIndex) : Type 0 where
  pub left_ordered : InOrder l
  pub right_ordered : InOrder r
  pub below : All (λ y. cache_of y < cache_of x) l
  pub above : All (λ y. cache_of x < cache_of y) r

pub around :
    (l : List ZoneIndex) (x : ZoneIndex) (r : List ZoneIndex) → InOrder (l ++ x ∷ r) → Around l x r
around [] x r (b, s) = record { left_ordered = tt; right_ordered = s; below = tt; above = b }
around (y ∷ l) x r (b, s) =
    let a = around l x r s in
    let (bl, (bx, br)) = All-append_split (λ z. cache_of y < cache_of z) l (x ∷ r) b in
    record {
      left_ordered = (bl, a.left_ordered);
      right_ordered = a.right_ordered;
      below = (bx, a.below);
      above = a.above;
    }

-- Nodes on one side of a bound do not have a cache on the other side.
all_above :
    (c d : ℕ) (xs : List ZoneIndex)
    → c ≤ d
    → All (λ y. d < cache_of y) xs
    → All (λ y. cache_of y ≢ c) xs
all_above c d [] e h = tt
all_above c d (x ∷ xs) e (h, hs) = (λ q. omega (arith, q, h, e), all_above c d xs e hs)

all_below :
    (c d : ℕ) (xs : List ZoneIndex)
    → d ≤ c
    → All (λ y. cache_of y < d) xs
    → All (λ y. cache_of y ≢ c) xs
all_below c d [] e h = tt
all_below c d (x ∷ xs) e (h, hs) = (λ q. omega (arith, q, h, e), all_below c d xs e hs)

or_none :
    (o : Option ZoneIndex)
    → (elim o as (λ _. Option ZoneIndex) [ none ↦ none | some x ↦ some x ]) ≡ o
or_none none = refl
or_none (some x) = refl

pub lookup_zone_index-find_node :
    (c : ℕ) (t : Tree ZoneIndex)
    → InOrder (to_list t)
    → lookup_zone_index c t ≡ find_node c (to_list t)
unfolding lookup_zone_index
lookup_zone_index-find_node c sentinel s = refl
lookup_zone_index-find_node c (branch l x r) s =
    let a = around (to_list l) x (to_list r) s in
    let ihl = lookup_zone_index-find_node c l a.left_ordered in
    let ihr = lookup_zone_index-find_node c r a.right_ordered in
    elim (Bool-cases (ltb c (cache_of x))) [
      | inl less ↦
          let lt : c < cache_of x = ground (arith, less) in
          rw (less, lookup_zone_index)
            (ihl
              ∙ sym (
                  find_node-append c (to_list l) (x ∷ to_list r)
                  ∙ ap
                      (λ o. elim (find_node c (to_list l)) as (λ _. Option ZoneIndex) [
                        | none ↦ o
                        | some y ↦ some y
                      ])
                      (find_node-none c (x ∷ to_list r) (
                        λ q. omega (arith, q, lt),
                        all_above c (cache_of x) (to_list r) (omega (arith, lt)) a.above,
                      ))
                  ∙ or_none (find_node c (to_list l))))
      | inr not_less ↦
          let le : cache_of x ≤ c = ground (arith, not_less) in
          let gone =
            find_node-none c (to_list l) (all_below c (cache_of x) (to_list l) le a.below) in
          let split : find_node c (to_list l ++ x ∷ to_list r) ≡ find_node c (x ∷ to_list r) =
            find_node-append c (to_list l) (x ∷ to_list r)
            ∙ ap
                (λ o. elim o as (λ _. Option ZoneIndex) [
                  | none ↦ find_node c (x ∷ to_list r)
                  | some y ↦ some y
                ])
                gone in
          rw (not_less, lookup_zone_index) (at_root le ihr ∙ sym split)
    ]
  where
    at_root :
        cache_of x ≤ c
        → lookup_zone_index c r ≡ find_node c (to_list r)
        → (if ltb (cache_of x) c then lookup_zone_index c r else some x)
          ≡ find_node c (x ∷ to_list r)
    at_root le ih = ground (arith, le, ih)
