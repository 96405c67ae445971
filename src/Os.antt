-- ===== src/Os.antt =====
-- What the module relies on of the operating system and of the layout of nginx's cache files, as a
-- parameter of the model. The file system is a state that the calls pass on.
use ngx_cache_pilot.Base.{ℕ, Bytes, Bool, Option, List}

-- `ngx_file_info`: the size and the modification time, or the error.
pub data Stat : Type 0 where
  file_stat : ℕ → ℕ → Stat
  stat_enoent stat_failed : Stat

-- `ngx_open_file`.
pub data Opened : Type 0 where
  opened open_enoent open_failed : Opened

-- `ngx_delete_file`.
pub data Deleted : Type 0 where
  unlinked delete_enoent delete_failed : Deleted

-- `read_file fs path size offset` returns the bytes read, `none` on an error; `write_file` tells how
-- many bytes were written. `walk_tree` is the order in which `ngx_walk_tree` hands the files below a
-- directory to a handler that never aborts, and whether it then returns `NGX_OK`. A cache file starts with `sizeof_header` bytes, whose version is
-- `version_of`, and `expire` is the header with `valid_sec` 0.
pub record Os : Type 1 where
  pub Fs : Type 0
  pub file_info : Fs → Bytes → Stat
  pub open_file : Fs → Bytes → Opened
  pub read_file : Fs → Bytes → ℕ → ℕ → Option Bytes
  pub write_file : Fs → Bytes → Bytes → Fs × Option ℕ
  pub delete_file : Fs → Bytes → Fs × Deleted
  pub walk_tree : Fs → Bytes → List Bytes × Bool
  pub sizeof_header : ℕ
  pub version_of : Bytes → ℕ
  pub cache_version : ℕ
  pub expire : Bytes → Bytes
