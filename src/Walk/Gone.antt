-- ===== src/Walk/Gone.antt =====
-- The files that a hard walk counts are gone from the cache.
use ngx_cache_pilot.Base.{
  ℕ, suc, ◌+◌, Bytes, false, ◌≡◌, refl, ap, ◌∙◌, Option, none, List, [], ◌∷◌, length, All,
  Bool-cases, inl, inr, arith, ◌⊎◌,
}
use ngx_cache_pilot.Nginx.{Nginx, ok}
use ngx_cache_pilot.Os.{Os}
use ngx_cache_pilot.FileCache.{FileCache, Disk, by_path, lookup_existing}
use ngx_cache_pilot.FileCache.Accounting.{Rc-cases}
use ngx_cache_pilot.FileCache.Effects.{delete_cache_file_ok}
use ngx_cache_pilot.Walk.{is_match, walk_file, walk_files}

-- Some of the paths, in their order.
pub data Picks : List Bytes → List Bytes → Type 0 where
  finished : Picks [] []
  skipped : (p : Bytes) (ps picked : List Bytes) → Picks ps picked → Picks (p ∷ ps) picked
  kept : (p : Bytes) (ps picked : List Bytes) → Picks ps picked → Picks (p ∷ ps) (p ∷ picked)

module _ (ngx : Nginx) (os : Os) where
  abbrev pub IsGone : FileCache → Bytes → Type 0
  IsGone c p = lookup_existing ngx c p ≡ none

  by_path-IsGone :
      (d : Disk ngx os) (path : Bytes)
      → ((by_path ngx os false d path).1 ≡ ok → IsGone (by_path ngx os false d path).0.cache path)
        × ((q : Bytes) → IsGone d.cache q → IsGone (by_path ngx os false d path).0.cache q)
  unfolding by_path
  by_path-IsGone d path = delete_cache_file_ok ngx os d path

  -- One file: it is counted and then gone, or not counted.
  walk_file_lem :
      (key : Option Bytes) (d : Disk ngx os) (count : ℕ) (path : Bytes)
      → let r = walk_file ngx os false key d count path in
        ((r.1 ≡ count) ⊎ ((r.1 ≡ suc count) × IsGone r.0.cache path))
        × ((q : Bytes) → IsGone d.cache q → IsGone r.0.cache q)
  unfolding walk_file
  walk_file_lem key d count path = elim (Bool-cases (is_match ngx os key d.fs path)) [
    | inr other ↦ rw (other, walk_file) (inl refl, λ q h. h)
    | inl hit ↦
        let (gone, others) = by_path-IsGone d path in
        elim (Rc-cases (by_path ngx os false d path).1) [
          | inl e ↦ rw (hit, walk_file, e) (inr (refl, gone e), others)
          | inr (inl e) ↦ rw (hit, walk_file, e) (inl refl, others)
          | inr (inr e) ↦ rw (hit, walk_file, e) (inl refl, others)
        ]
  ]

  walk_files_still :
      (paths : List Bytes) (key : Option Bytes) (d : Disk ngx os) (count : ℕ) (q : Bytes)
      → IsGone d.cache q
      → IsGone (walk_files ngx os false key d count paths).0.cache q
  unfolding walk_files
  walk_files_still [] key d count q h = h
  walk_files_still (p ∷ ps) key d count q h =
      walk_files_still ps key _ _ q ((walk_file_lem key d count p).1 q h)

  -- A hard walk counts some of the files it visits, in their order, and at its end none of those has an
  -- existing node in the cache.
  pub walk_files-IsGone :
      (paths : List Bytes) (key : Option Bytes) (d : Disk ngx os) (count : ℕ)
      → let r = walk_files ngx os false key d count paths in
        (picked : List Bytes) × Picks paths picked
        × (r.1 ≡ length picked + count)
        × All (IsGone r.0.cache) picked
  unfolding walk_files
  walk_files-IsGone [] key d count = ([], finished, omega arith, tt)
  walk_files-IsGone (p ∷ ps) key d count =
      let (one, _) = walk_file_lem key d count p in
      let (picked, some_of, counted, gone) = walk_files-IsGone ps key _ _ in
      elim one [
        | inl same ↦
            (picked, skipped p ps picked some_of, counted ∙ ap (λ n. length picked + n) same, gone)
        | inr (more, there) ↦ (
          p ∷ picked,
          kept p ps picked some_of,
          counted ∙ omega (arith, more),
          (walk_files_still ps key _ _ p there, gone),
        )
      ]
