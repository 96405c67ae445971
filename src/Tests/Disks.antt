-- ===== src/Tests/Disks.antt =====
-- A concrete disk: files are paths with their bytes, a header is a version and `valid_sec`, and every
-- call works on a file that is there.
use ngx_cache_pilot.Base.{
  ℕ, Bytes, true, false, Option, none, some, List, [], ◌∷◌, ◌++◌, ◌==ᵇ◌, length, take, drop,
  if◌then◌else◌, codes,
}
use ngx_cache_pilot.Os.{
  Os, Deleted, file_stat, stat_enoent, opened, open_enoent, unlinked, delete_enoent,
}
use ngx_cache_pilot.Tree.{sentinel, branch}
use ngx_cache_pilot.FileCache.{CacheNode, Disk}
use ngx_cache_pilot.Tests.Platform.{platform}

abbrev pub contents : List (Bytes × Bytes) → Bytes → Option Bytes
contents [] path = none
contents ((p, text) ∷ fs) path = if p ==ᵇ path then some text else contents fs path

abbrev without_file : List (Bytes × Bytes) → Bytes → List (Bytes × Bytes)
without_file [] path = []
without_file ((p, text) ∷ fs) path = if p ==ᵇ path then fs else (p, text) ∷ without_file fs path

abbrev paths : List (Bytes × Bytes) → List Bytes
paths [] = []
paths ((p, text) ∷ fs) = p ∷ paths fs

abbrev expired : Bytes → Bytes
expired [] = []
expired (version ∷ rest) = version ∷ 0 ∷ []

abbrev first_byte : Bytes → ℕ
first_byte [] = 0
first_byte (c ∷ cs) = c

abbrev unlink : List (Bytes × Bytes) → Bytes → List (Bytes × Bytes) × Deleted
unlink fs path = elim (contents fs path) [
  | none ↦ (fs, delete_enoent)
  | some text ↦ (without_file fs path, unlinked)
]

abbrev pub files : Os
files = record {
  Fs = List (Bytes × Bytes);
  file_info = λ fs path. elim (contents fs path) [
    | none ↦ stat_enoent
    | some text ↦ file_stat (length text) 0
  ];
  open_file = λ fs path. elim (contents fs path) [ none ↦ open_enoent | some text ↦ opened ];
  read_file = λ fs path size offset. elim (contents fs path) [
    | none ↦ none
    | some text ↦ some (take size (drop offset text))
  ];
  write_file = λ fs path bytes. elim (contents fs path) [
    | none ↦ (fs, none)
    | some text ↦
        ((path, bytes ++ drop (length bytes) text) ∷ without_file fs path, some (length bytes))
  ];
  delete_file = unlink;
  sizeof_header = 2;
  version_of = first_byte;
  cache_version = 5;
  expire = expired;
  walk_tree = λ fs root. (paths fs, true);
}

-- Two files, named after their keys.
abbrev pub file_a : Bytes
file_a = codes "/c/00000000000000010000000000000002"

abbrev pub file_b : Bytes
file_b = codes "/c/00000000000000020000000000000003"

abbrev pub node_a : CacheNode
node_a = record {
  node_key = 1;
  key = 0 ∷ 0 ∷ 0 ∷ 0 ∷ 0 ∷ 0 ∷ 0 ∷ 2 ∷ [];
  exists = true;
  updating = false;
  fs_size = 3;
  valid_sec = 9;
  lock_time = 0;
}

abbrev pub node_b : CacheNode
node_b = record {
  node_key = 2;
  key = 0 ∷ 0 ∷ 0 ∷ 0 ∷ 0 ∷ 0 ∷ 0 ∷ 3 ∷ [];
  exists = true;
  updating = false;
  fs_size = 4;
  valid_sec = 9;
  lock_time = 0;
}

abbrev pub full_disk : Disk platform files
full_disk = record {
  cache = record { nodes = branch sentinel node_a (branch sentinel node_b sentinel); size = 7 };
  fs =
      (file_a, 5 ∷ 9 ∷ 1 ∷ [])
      ∷ (file_b, 5 ∷ 9 ∷ 1 ∷ [])
      ∷ (codes "/a", 5 ∷ [])
      ∷ (codes "/b", 5 ∷ [])
      ∷ [];
}

-- The first of the two indexed files has a header, the second is gone.
abbrev pub half_disk : Disk platform files
half_disk = record full_disk { fs = (codes "/a", 5 ∷ 9 ∷ 1 ∷ []) ∷ [] }
