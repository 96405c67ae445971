-- ===== src/Token.antt =====
-- The cache tags of a header value (`ngx_http_cache_index_extract_tokens` in
-- src/ngx_cache_pilot_index_store.c). The memory pool is the number of tags that it can still hold;
-- `none` is `NGX_ERROR`. The outer loop runs on fuel, one step for each byte of the value being enough.
pub mod Words
use ngx_cache_pilot.Base.{
  ℕ, zero, suc, Bytes, Bool, true, false, ◌||◌, ◌&&◌, ◌==◌, leb, Option, none, some, List, [], ◌∷◌,
  ◌++◌, length, if◌then◌else◌,
}
use ngx_cache_pilot.Nginx.{Nginx}
use ngx_cache_pilot.Index.{is_empty}
use ngx_cache_pilot.Collect.{◌>>=◌}

-- Space, tab, carriage return, newline and comma.
abbrev pub is_separator : ℕ → Bool
is_separator c = c == 32 || c == 9 || c == 13 || c == 10 || c == 44

-- The two inner loops: the value behind the separators, and a token with what comes after it.
unfoldable pub skip_separators : Bytes → Bytes
skip_separators [] = []
skip_separators (c ∷ cs) = if is_separator c then skip_separators cs else c ∷ cs

unfoldable pub token_of : Bytes → Bytes
token_of [] = []
token_of (c ∷ cs) = if is_separator c then [] else c ∷ token_of cs

unfoldable pub after_token : Bytes → Bytes
after_token [] = []
after_token (c ∷ cs) = if is_separator c then c ∷ cs else after_token cs

-- `NGX_HTTP_CACHE_TAG_MAX_TOKENS_PER_SCAN`.
abbrev pub max_tokens : ℕ
max_tokens = 1000

module _ (ngx : Nginx) where
  -- A tag of the same length and the same letters in either case is in the array.
  unfoldable pub is_known : Bytes → List Bytes → Bool
  is_known tag [] = false
  is_known tag (t ∷ ts) = (length t == length tag && ngx.nocase t tag) || is_known tag ts

  unfoldable pub push_unique : ℕ → List Bytes → Bytes → Option (ℕ × List Bytes)
  push_unique room tags tag =
      if is_empty tag || is_known tag tags
      then some (room, tags)
      else elim room [ zero ↦ none | suc left ↦ some (left, tags ++ tag ∷ []) ]

  unfoldable pub extract_tokens : ℕ → ℕ → List Bytes → Bytes → Option (ℕ × List Bytes)
  unfolding skip_separators token_of after_token
  extract_tokens fuel room tags [] = some (room, tags)
  extract_tokens zero room tags (c ∷ cs) = none
  extract_tokens (suc fuel) room tags (c ∷ cs) =
      let start = skip_separators (c ∷ cs) in
      let token = token_of start in
      let again = extract_tokens fuel room tags (after_token start) in
      let pushed =
        push_unique room tags token
        >>= (λ (room', tags'). extract_tokens fuel room' tags' (after_token start)) in
      if is_empty token
      then again
      else if leb max_tokens (length tags)
      then some (room, tags)
      else pushed
