-- ===== src/Collect.antt =====
-- The three ways to collect the paths of a zone's files
-- (`collect_paths_by_tags`, `…_by_exact_key` and `…_by_key_prefix` in
-- src/ngx_cache_pilot_index_store.c). The request's memory pool is the number of paths that it can
-- still hold; `none` is `NGX_ERROR`.
pub mod Unique
pub mod Answers
pub mod Total
use ngx_cache_pilot.Base.{
  ℕ, zero, suc, Bytes, Bool, true, false, ◌||◌, Option, none, some, List, [], ◌∷◌, ◌++◌, length,
  ltb, if◌then◌else◌, same_string, strncmp_eq,
}
use ngx_cache_pilot.Nginx.{Nginx}
use ngx_cache_pilot.Index.{lookup_entry}
use ngx_cache_pilot.Zone.{File, Zone}

infixl 5 ◌>>=◌
abbrev pub ◌>>=◌ : {A B : Type 0} → Option A → (A → Option B) → Option B
none >>= f = none
some a >>= f = f a

-- `path[i].len == len && ngx_strncmp(…) == 0` for some `i`.
unfoldable pub is_listed : Bytes → List Bytes → Bool
is_listed path [] = false
is_listed path (p ∷ ps) = same_string p path || is_listed path ps

unfoldable pub push_path_unique : ℕ → List Bytes → Bytes → Option (ℕ × List Bytes)
push_path_unique room paths path =
    if is_listed path paths
    then some (room, paths)
    else elim room [ zero ↦ none | suc left ↦ some (left, paths ++ path ∷ []) ]

-- The files of one queue.
unfoldable pub push_queue : ℕ → List Bytes → List Bytes → Option (ℕ × List Bytes)
push_queue room paths [] = some (room, paths)
push_queue room paths (p ∷ ps) = do
  (room', paths') ← push_path_unique room paths p
  push_queue room' paths' ps

module _ (ngx : Nginx) (zone : Zone) where
  unfoldable pub collect_tags : ℕ → List Bytes → List Bytes → Option (ℕ × List Bytes)
  collect_tags room paths [] = some (room, paths)
  collect_tags room paths (tag ∷ tags) = elim (lookup_entry ngx zone.tag_index tag) [
    | none ↦ collect_tags room paths tags
    | some entry ↦ do
      (room', paths') ← push_queue room paths entry.files
      collect_tags room' paths' tags
  ]

  unfoldable pub collect_key : ℕ → List Bytes → Bytes → Option (ℕ × List Bytes)
  collect_key room paths key = elim (lookup_entry ngx zone.key_index key) [
    | none ↦ some (room, paths)
    | some entry ↦ push_queue room paths entry.files
  ]

-- A scan of all the files of the zone.
unfoldable pub collect_prefix : ℕ → List Bytes → Bytes → List File → Option (ℕ × List Bytes)
collect_prefix room paths prefix [] = some (room, paths)
collect_prefix room paths prefix (file ∷ files) =
    let skip = collect_prefix room paths prefix files in
    let take =
      push_path_unique room paths file.path
      >>= (λ (room', paths'). collect_prefix room' paths' prefix files) in
    if ltb (length file.key) (length prefix)
    then skip
    else if strncmp_eq (length prefix) file.key prefix
    then take
    else skip
