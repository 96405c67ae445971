-- ===== src/Nginx.antt =====
-- What the module relies on of nginx itself and of its build, as a parameter of the model: byte
-- comparison, checksums, the balancing and deletion of the red-black tree, the slab allocator.
use ngx_cache_pilot.Base.{ℕ, Bytes, Bool, Option, ◌≡◌, Ordering, remove_first}
use ngx_cache_pilot.Tree.{Tree, to_list}
use ngx_cache_pilot.Tree.Order.{IsTotal}

-- `NGX_OK`, `NGX_DECLINED` and any other code.
pub data Rc : Type 0 where
  ok declined error : Rc

-- The slab objects that the index frees, by what they stand for.
pub data Block : Type 0 where
  file_block key_block tag_block : Bytes → Block
  member_block : Bytes → Bytes → Block

-- `memn2cmp` is the sign of `ngx_memn2cmp`. Balancing keeps the order of the nodes, and deletion
-- takes one node out. `slab_alloc` tells whether it returned memory. `nocase a b` is
-- `ngx_strncasecmp(a, b, n) == 0` for strings of `n` bytes, `hextoi` reads one hexadecimal digit,
-- `word_of` is the number that eight bytes stand for in memory, and `memcmp` the sign of `ngx_memcmp`.
pub record Nginx : Type 1 where
  pub memn2cmp : Bytes → Bytes → Ordering
  pub memn2cmp_total : IsTotal memn2cmp
  pub crc32_short : Bytes → ℕ
  pub crc32_long : Bytes → ℕ
  pub nocase : Bytes → Bytes → Bool
  pub hextoi : ℕ → Option ℕ
  pub word_of : Bytes → ℕ
  pub memcmp : Bytes → Bytes → Ordering
  pub memcmp_total : IsTotal memcmp
  pub rebalance : (A : Type 0) → Tree A → Tree A
  pub rebalance_keeps : (A : Type 0) (t : Tree A) → to_list (rebalance A t) ≡ to_list t
  pub rbtree_delete : (A : Type 0) → (A → Bool) → Tree A → Tree A
  pub rbtree_delete_lem :
      (A : Type 0) (hit : A → Bool) (t : Tree A)
      → to_list (rbtree_delete A hit t) ≡ remove_first hit (to_list t)
  pub Slab : Type 0
  pub slab_alloc : Slab → ℕ → Slab × Bool
  pub slab_free : Slab → Block → Slab
  pub sizeof_zone : ℕ
  pub sizeof_file : ℕ
  pub sizeof_entry : ℕ
  pub sizeof_member : ℕ
