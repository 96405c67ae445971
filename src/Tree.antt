-- ===== src/Tree.antt =====
-- The shared-memory search trees of src/ngx_cache_pilot_index_store.c: the descent of the insert
-- callback and the lookup, over a payload type. Balancing and deletion are nginx's.
pub mod Order
pub mod Lookup
use ngx_cache_pilot.Base.{
  ℕ, Bytes, Bool, Option, none, some, List, [], ◌∷◌, ◌++◌, Ordering, ltb, if◌then◌else◌,
}

pub data Tree (A : Type 0) : Type 0 where
  sentinel : Tree A
  branch : Tree A → A → Tree A → Tree A

-- The nodes in order.
abbrev pub to_list : {A : Type 0} → Tree A → List A
to_list sentinel = []
to_list (branch l x r) = to_list l ++ x ∷ to_list r

-- A change of the payloads.
abbrev pub map_tree : {A : Type 0} → (A → A) → Tree A → Tree A
map_tree f sentinel = sentinel
map_tree f (branch l x r) = branch (map_tree f l) (f x) (map_tree f r)

-- `node_key` is `node->key`, `node_string` the string that a node stands for, and `cmp` the sign of
-- `ngx_memn2cmp`.
module _ {A : Type 0} (node_key : A → ℕ) (node_string : A → Bytes)
    (cmp : Bytes → Bytes → Ordering) where
  unfoldable pub insert_generic : Tree A → A → Tree A
  insert_generic sentinel node = branch sentinel node sentinel
  insert_generic (branch l temp r) node =
      let left = branch (insert_generic l node) temp r in
      let right = branch l temp (insert_generic r node) in
      if ltb (node_key node) (node_key temp)
      then left
      else if ltb (node_key temp) (node_key node)
      then right
      else elim (cmp (node_string node) (node_string temp)) [ Ordering.lt ↦ left | _ ↦ right ]

  unfoldable pub lookup_generic : ℕ → Bytes → Tree A → Option A
  lookup_generic hash needle sentinel = none
  lookup_generic hash needle (branch l node r) =
      let left = lookup_generic hash needle l in
      let right = lookup_generic hash needle r in
      if ltb hash (node_key node)
      then left
      else if ltb (node_key node) hash
      then right
      else elim (cmp needle (node_string node)) [
        | Ordering.eq ↦ some node
        | Ordering.lt ↦ left
        | Ordering.gt ↦ right
      ]
