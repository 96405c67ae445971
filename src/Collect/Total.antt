-- ===== src/Collect/Total.antt =====
-- With room for the paths a collection succeeds.
use ngx_cache_pilot.Base.{
  ℕ, ◌+◌, ◌≤◌, Bytes, Bool, true, false, ◌≡◌, refl, ap, Option, some, List, [], ◌∷◌, length,
  if◌then◌else◌, ltb, arith, Bool-cases, inl, inr, strncmp_eq, zero, suc, ◌++◌,
}
use ngx_cache_pilot.Nginx.{Nginx}
use ngx_cache_pilot.Index.{lookup_entry}
use ngx_cache_pilot.Index.Queues.{lookup_entry-Found}
use ngx_cache_pilot.Zone.{File, Zone}
use ngx_cache_pilot.Zone.Links.{key_links, tag_links, linked}
use ngx_cache_pilot.Zone.Invariant.{IsZone}
use ngx_cache_pilot.Collect.{push_path_unique, collect_tags, collect_key, collect_prefix, is_listed}
use ngx_cache_pilot.Collect.Unique.{push_queue_total}
use ngx_cache_pilot.Collect.Answers.{lookup_links}

-- How many paths stand in the queues of the tags.
abbrev pub tag_hits : List Bytes → List File → ℕ
tag_hits [] fs = 0
tag_hits (tag ∷ tags) fs = length (linked tag_links tag fs) + tag_hits tags fs

abbrev pub Succeeds : Option (ℕ × List Bytes) → Type 0
Succeeds o = (r : ℕ) × (out : List Bytes) × (o ≡ some (r, out))

module _ (ngx : Nginx) (zone : Zone) (v : IsZone ngx zone) where
  pub collect_tags_total :
      (tags : List Bytes) (room : ℕ) (paths : List Bytes)
      → tag_hits tags zone.files ≤ room
      → Succeeds (collect_tags ngx zone room paths tags)
  unfolding collect_tags
  collect_tags_total [] room paths h = (room, paths, refl)
  collect_tags_total (tag ∷ tags) room paths h =
      elim (lookup_links ngx zone.tag_index tag (linked tag_links tag zone.files)
        (lookup_entry ngx zone.tag_index tag) (lookup_entry-Found ngx zone.tag_index tag v.tags)
        (v.tag_queues tag)) [
          | inl (gone, empty) ↦
              rw (gone, collect_tags) (collect_tags_total tags room paths (omega arith))
          | inr (entry, there, queue) ↦
              let size = ap length queue in
              let (room', paths', ok, left) =
                push_queue_total entry.files room paths (omega (arith, size)) in
              let (r, out, e) = collect_tags_total tags room' paths' (omega (arith, size, left)) in
              (r, out, rw (there, collect_tags, ok) e)
        ]

  pub collect_key_total :
      (key : Bytes) (room : ℕ) (paths : List Bytes)
      → length (linked key_links key zone.files) ≤ room
      → Succeeds (collect_key ngx zone room paths key)
  unfolding collect_key
  collect_key_total key room paths h =
      elim (lookup_links ngx zone.key_index key (linked key_links key zone.files)
        (lookup_entry ngx zone.key_index key) (lookup_entry-Found ngx zone.key_index key v.keys)
        (v.key_queues key)) [
          | inl (gone, empty) ↦ rw (gone, collect_key) (room, paths, refl)
          | inr (entry, there, queue) ↦
              let (r, out, ok, _) =
                push_queue_total entry.files room paths (omega (arith, ap length queue)) in
              (r, out, rw (there, collect_key) ok)
        ]

-- One path more takes the room of at most one path.
push_path_unique_total :
    (room : ℕ) (paths : List Bytes) (path : Bytes)
    → (r : ℕ) × (out : List Bytes) × (push_path_unique (suc room) paths path ≡ some (r, out))
      × (room ≤ r)
unfolding push_path_unique
push_path_unique_total room paths path = elim (Bool-cases (is_listed path paths)) [
  | inl old ↦ (suc room, paths, rw (old, push_path_unique) refl, omega arith)
  | inr new ↦ (room, paths ++ path ∷ [], rw (new, push_path_unique) refl, omega arith)
]

pub collect_prefix_total :
    (prefix : Bytes) (fs : List File) (room : ℕ) (paths : List Bytes)
    → length fs ≤ room
    → Succeeds (collect_prefix room paths prefix fs)
unfolding collect_prefix
collect_prefix_total prefix [] room paths h = (room, paths, refl)
collect_prefix_total prefix (f ∷ fs) zero paths h = elim h [ ]
collect_prefix_total prefix (f ∷ fs) (suc room) paths h =
    let (r, out, ok, left) = push_path_unique_total room paths f.path in
    let skip = collect_prefix_total prefix fs (suc room) paths (omega arith) in
    let take = collect_prefix_total prefix fs r out (omega (arith, left)) in
    either (ltb (length f.key) (length prefix)) (strncmp_eq (length prefix) f.key prefix) skip
      (rw ok take)
  where
    either :
        {a b : Option (ℕ × List Bytes)} (short same : Bool)
        → Succeeds a
        → Succeeds b
        → Succeeds (if short then a else if same then b else a)
    either true same x y = x
    either false true x y = y
    either false false x y = x
