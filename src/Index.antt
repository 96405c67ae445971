-- ===== src/Index.antt =====
-- The key index and the tag index of a zone (src/ngx_cache_pilot_index_store.c): search trees of
-- entries, each with the queue of its files. A pointer to an entry is named by the entry's text, and
-- a pointer to a file by the file's path; a zone holds at most one of each.
pub mod Queues
pub mod Changes
use ngx_cache_pilot.Base.{
  remove_first, ℕ, Bytes, Bool, true, false, ◌≡◌, ◌==ᵇ◌, Option, none, some, List, [], ◌∷◌, ◌++◌,
  if◌then◌else◌, map,
}
use ngx_cache_pilot.Nginx.{Nginx, Block}
use ngx_cache_pilot.Tree.{Tree, sentinel, branch, to_list, insert_generic, lookup_generic}

-- `ngx_http_cache_index_shm_key_entry_t` and `ngx_http_cache_index_shm_tag_entry_t`.
pub record Entry : Type 0 where
  pub node_key : ℕ
  pub text : Bytes
  pub files : List Bytes

-- A change of the entry behind a pointer.
abbrev pub at_entry : Bytes → (List Bytes → List Bytes) → Entry → Entry
at_entry k f e = if e.text ==ᵇ k then record e { files = f e.files } else e

abbrev pub write_entry : Bytes → (List Bytes → List Bytes) → Tree Entry → Tree Entry
write_entry k f sentinel = sentinel
write_entry k f (branch l e r) = branch (write_entry k f l) (at_entry k f e) (write_entry k f r)

-- The queue behind a pointer to an entry.
abbrev pub queue_of : Bytes → List Entry → List Bytes
queue_of k [] = []
queue_of k (e ∷ es) = if e.text ==ᵇ k then e.files else queue_of k es

abbrev pub is_empty : {A : Type 0} → List A → Bool
is_empty [] = true
is_empty (x ∷ xs) = false

module _ (ngx : Nginx) where
  unfoldable pub lookup_entry : Tree Entry → Bytes → Option Entry
  lookup_entry index k =
      lookup_generic (λ e. e.node_key) (λ e. e.text) ngx.memn2cmp (ngx.crc32_short k) k index

  -- A new entry: no files, its own copy of the text.
  abbrev pub new_entry : Bytes → Entry
  new_entry k = record { node_key = ngx.crc32_short k; text = k; files = [] }

  unfoldable pub insert_entry : Tree Entry → Bytes → Tree Entry
  insert_entry index k =
      ngx.rebalance Entry
        (insert_generic (λ e. e.node_key) (λ e. e.text) ngx.memn2cmp index (new_entry k))

  -- `ngx_queue_insert_tail(&entry->files, …)`.
  unfoldable pub push_file : Tree Entry → Bytes → Bytes → Tree Entry
  push_file index k path = write_entry k (λ q. q ++ path ∷ []) index

  -- `ngx_queue_remove` of the file's link in the entry's queue.
  unfoldable pub unlink_file : Tree Entry → Bytes → Bytes → Tree Entry
  unlink_file index k path = write_entry k (remove_first (λ p. p ==ᵇ path)) index

  -- `free_empty_key_entry_locked` and `free_empty_tag_entry_locked`.
  unfoldable pub free_empty_entry : Tree Entry → Bytes → Tree Entry
  free_empty_entry index k =
      if is_empty (queue_of k (to_list index))
      then ngx.rbtree_delete Entry (λ e. e.text ==ᵇ k) index
      else index
