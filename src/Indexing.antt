-- ===== src/Indexing.antt =====
-- The indexing of one cache file (`ngx_http_cache_index_path_known`, `parse_file` and `process_file` in
-- src/ngx_cache_pilot_index_store.c): its first 64 KB are searched, at each start of a line, for the
-- key and for the headers that carry tags.
pub mod Entries
use ngx_cache_pilot.Base.{
  ℕ, zero, suc, ◌+◌, ◌*◌, Bytes, Bool, true, false, not, ◌&&◌, ◌||◌, ◌==◌, leb, ltb, min, Option,
  none, some, List, [], ◌∷◌, length, take, drop, if◌then◌else◌, codes,
}
use ngx_cache_pilot.Nginx.{Nginx}
use ngx_cache_pilot.Os.{Os, file_stat, stat_enoent, stat_failed, opened, open_enoent, open_failed}
use ngx_cache_pilot.Index.{is_empty}
use ngx_cache_pilot.FileCache.{base_name, key_len}
use ngx_cache_pilot.Token.{extract_tokens}
use ngx_cache_pilot.Upsert.{Meta}
use ngx_cache_pilot.Store.{Store, upsert_file_meta, delete_file}
use ngx_cache_pilot.Registry.{HeaderArray}

-- What the memory pool of a file grants: itself, the buffer and the array of the tags, the text of the key, and a number of tags.
pub record Grants : Type 0 where
  pub pool : Bool
  pub buffer : Bool
  pub key : Bool
  pub tags : ℕ

unfoldable pub path_known : Bytes → Bool
path_known path = length (base_name path) == 2 * key_len

-- A value starts behind blanks and ends before the end of its line.
unfoldable pub skip_blanks : Bytes → Bytes
skip_blanks [] = []
skip_blanks (c ∷ cs) = if c == 32 || c == 9 then skip_blanks cs else c ∷ cs

unfoldable pub until_line_end : Bytes → Bytes
until_line_end [] = []
until_line_end (c ∷ cs) = if c == 10 || c == 13 then [] else c ∷ until_line_end cs

unfoldable pub value_of : Bytes → Bytes
unfolding skip_blanks until_line_end
value_of bytes = until_line_end (skip_blanks bytes)

-- The header array that is absent acts as an empty one.
unfoldable pub header_names : Option HeaderArray → List Bytes
header_names none = []
header_names (some h) = h.names

-- `ngx_http_cache_index_parse_file` reads no more.
abbrev pub max_read : ℕ
max_read = 65536

module _ (ngx : Nginx) where
  -- `rest` starts at the start of a line.
  unfoldable pub is_key_line : Bytes → Bool
  is_key_line rest = leb 4 (length rest) && ngx.nocase (take 4 rest) (codes "KEY:")

  unfoldable pub is_header_line : Bytes → Bytes → Bool
  is_header_line name rest =
      ltb (length name + 1) (length rest)
      && ngx.nocase (take (length name) rest) name
      && is_colon (drop (length name) rest)
    where
      is_colon : Bytes → Bool
      is_colon [] = false
      is_colon (c ∷ cs) = c == 58

  -- The key is taken once; `none` is `NGX_ERROR`.
  unfoldable pub take_key : Bool → Bytes → Bytes → Option Bytes
  unfolding is_key_line value_of
  take_key granted key rest =
      if is_empty key && is_key_line rest && not (is_empty (value_of (drop 4 rest)))
      then if granted then some (value_of (drop 4 rest)) else none
      else some key

  unfoldable pub take_tags : List Bytes → ℕ → List Bytes → Bytes → Option (ℕ × List Bytes)
  unfolding is_header_line value_of
  take_tags [] room tags rest = some (room, tags)
  take_tags (name ∷ names) room tags rest =
      let value = value_of (drop (length name + 1) rest) in
      let found : Option (ℕ × List Bytes) =
        if is_header_line name rest
        then extract_tokens ngx (length value) room tags value
        else some (room, tags) in
      elim found [ none ↦ none | some (room', tags') ↦ take_tags names room' tags' rest ]

  -- The loop over the bytes; `start` tells whether a line starts here.
  unfoldable pub parse_lines :
      Bool → List Bytes → Bool → ℕ → Bytes → List Bytes → Bytes → Option (Bytes × List Bytes)
  unfolding take_key take_tags
  parse_lines granted names start room key tags [] = some (key, tags)
  parse_lines granted names false room key tags (c ∷ cs) =
      parse_lines granted names (c == 10) room key tags cs
  parse_lines granted names true room key tags (c ∷ cs) = elim (take_key granted key (c ∷ cs)) [
    | none ↦ none
    | some key' ↦ elim (take_tags names room tags (c ∷ cs)) [
      | none ↦ none
      | some (room', tags') ↦ parse_lines granted names (c == 10) room' key' tags' cs
    ]
  ]

  module _ (os : Os) where
    unfoldable pub read_buffer : os.Fs → Bytes → ℕ → Option Bytes
    read_buffer fs path size = elim (os.open_file fs path) [
      | open_enoent ↦ none
      | open_failed ↦ none
      | opened ↦ elim (os.read_file fs path size 0) [
        | none ↦ none
        | some bytes ↦ if is_empty bytes then none else some bytes
      ]
    ]

    -- `none` stands for `NGX_DECLINED` and for `NGX_ERROR`, which the caller does not tell apart.
    unfoldable pub parse_file : Grants → Option HeaderArray → os.Fs → Bytes → Option Meta
    unfolding path_known read_buffer parse_lines header_names
    parse_file grants headers fs path =
        if not (path_known path) then none else elim (os.file_info fs path) [
          | stat_enoent ↦ none
          | stat_failed ↦ none
          | file_stat size mtime ↦
              if min max_read size == 0 || not grants.buffer
              then none
              else elim (read_buffer fs path (min max_read size)) [
                | none ↦ none
                | some bytes ↦
                    elim (parse_lines grants.key (header_names headers) true grants.tags [] []
                      bytes) [
                        | none ↦ none
                        | some (key, tags) ↦ some (record {
                          path = path;
                          key = key;
                          mtime = mtime;
                          size = size;
                          tags = tags;
                        })
                      ]
              ]
        ]

    -- A file that cannot be parsed leaves the index. `false` is `NGX_ERROR`.
    unfoldable pub process_file :
        ℕ → Grants → Option HeaderArray → os.Fs → Store ngx → Bytes → Bytes → Store ngx × Bool
    process_file now grants headers fs store name path =
        if not grants.pool then (store, false) else elim (parse_file grants headers fs path) [
          | none ↦ (delete_file ngx now store name path, true)
          | some m ↦ upsert_file_meta ngx now store name m
        ]
