-- ===== src/Token/Words.antt =====
-- The scan reads the words of the value, in order, up to the limit.
use ngx_cache_pilot.Base.{
  ℕ, zero, suc, ◌≤◌, ◌+◌, Bytes, true, ◌||◌, ◌≡◌, refl, sym, ap, ◌∙◌, leb, Option, none, some,
  some-inj, none-ne-some, List, [], ◌∷◌, ◌++◌, length, length-append, if◌then◌else◌, arith,
  Bool-cases, Option-cases, inl, inr, append-nil, append_assoc,
}
use ngx_cache_pilot.Nginx.{Nginx}
use ngx_cache_pilot.Index.{is_empty}
use ngx_cache_pilot.Collect.{◌>>=◌}
use ngx_cache_pilot.Token.{
  is_separator, skip_separators, token_of, after_token, max_tokens, is_known, push_unique,
  extract_tokens,
}

-- The words of a value, split byte by byte; `word` is what is read of the word so far.
abbrev pub words_from : Bytes → Bytes → List Bytes
words_from word [] = if is_empty word then [] else word ∷ []
words_from word (c ∷ cs) =
    if is_separator c
    then (if is_empty word then words_from [] cs else word ∷ words_from [] cs)
    else words_from (word ++ c ∷ []) cs

words-skip : (v : Bytes) → words_from [] (skip_separators v) ≡ words_from [] v
unfolding skip_separators
words-skip [] = refl
words-skip (c ∷ cs) = elim (Bool-cases (is_separator c)) [
  | inl s ↦ rw s (words-skip cs)
  | inr n ↦ rw (n, n) refl
]

words-token :
    (word v : Bytes)
    → words_from word v ≡ (
        if is_empty (word ++ token_of v)
        then words_from [] (after_token v)
        else (word ++ token_of v) ∷ words_from [] (after_token v))
unfolding token_of after_token
words-token word [] = rw (append-nil word) refl
words-token word (c ∷ cs) = elim (Bool-cases (is_separator c)) [
  | inl s ↦ rw (s, append-nil word, s) refl
  | inr n ↦ rw (n, ← append_assoc word (c ∷ []) (token_of cs)) (words-token (word ++ c ∷ []) cs)
]

length-skip : (v : Bytes) → length (skip_separators v) ≤ length v
unfolding skip_separators
length-skip [] = omega arith
length-skip (c ∷ cs) = ground (arith, length-skip cs)

length-after : (v : Bytes) → length (after_token v) + length (token_of v) ≡ length v
unfolding after_token token_of
length-after [] = refl
length-after (c ∷ cs) = ground (arith, length-after cs)

-- A value without a token at its start, and no separator there, is at its end.
after-skip :
    (v : Bytes)
    → is_empty (token_of (skip_separators v)) ≡ true
    → after_token (skip_separators v) ≡ []
unfolding skip_separators token_of after_token
after-skip [] e = refl
after-skip (c ∷ cs) e = elim (Bool-cases (is_separator c)) [
  | inl s ↦ rw s (after-skip cs (rw s at e))
  | inr n ↦ ground (arith, n, e)
]

shorter :
    (c : ℕ) (cs : Bytes) (fuel : ℕ)
    → length (c ∷ cs) ≤ suc fuel
    → length (after_token (skip_separators (c ∷ cs))) ≤ fuel
shorter c cs fuel h = at_start (token_of (skip_separators (c ∷ cs))) refl
  where
    at_start :
        (token : Bytes)
        → token_of (skip_separators (c ∷ cs)) ≡ token
        → length (after_token (skip_separators (c ∷ cs))) ≤ fuel
    at_start [] e = omega (arith, ap length (after-skip (c ∷ cs) (ap is_empty e)))
    at_start (t ∷ ts) e =
        omega (arith, h, length-skip (c ∷ cs), length-after (skip_separators (c ∷ cs)), ap length e)

module _ (ngx : Nginx) where
  -- Pushing words up to the limit.
  pub push_words : ℕ → List Bytes → List Bytes → Option (ℕ × List Bytes)
  push_words room tags [] = some (room, tags)
  push_words room tags (w ∷ ws) =
      let pushed = push_unique ngx room tags w >>= (λ (room', tags'). push_words room' tags' ws) in
      if leb max_tokens (length tags) then some (room, tags) else pushed

  -- One round of the scan, from the start of a token on.
  round :
      (fuel room : ℕ) (tags : List Bytes) (start : Bytes)
      → ((r : ℕ) (ts : List Bytes)
          → extract_tokens ngx fuel r ts (after_token start)
            ≡ push_words r ts (words_from [] (after_token start)))
      → (if is_empty (token_of start)
          then extract_tokens ngx fuel room tags (after_token start)
          else if leb max_tokens (length tags)
          then some (room, tags)
          else push_unique ngx room tags (token_of start)
            >>= (λ (r, ts). extract_tokens ngx fuel r ts (after_token start)))
        ≡ push_words room tags (words_from [] start)
  unfolding push_words
  round fuel room tags start rest = elim (Bool-cases (is_empty (token_of start))) [
    | inl e ↦ rw (words-token [] start, e) (rest room tags)
    | inr n ↦
        rw (words-token [] start, n)
          (elim (Bool-cases (leb max_tokens (length tags))) [
            | inl full ↦ rw (full, push_words) refl
            | inr free ↦
                rw (free, push_words)
                  (elim (Option-cases (push_unique ngx room tags (token_of start))) [
                    | inl refused ↦ rw refused refl
                    | inr ((r, ts), pushed) ↦ rw pushed (rest r ts)
                  ])
          ])
  ]

  -- With fuel for the bytes of the value, the scan pushes the words of the value in their order, and
  -- stops at the limit.
  pub extract_tokens-words :
      (fuel room : ℕ) (tags : List Bytes) (value : Bytes)
      → length value ≤ fuel
      → extract_tokens ngx fuel room tags value ≡ push_words room tags (words_from [] value)
  unfolding extract_tokens push_words
  extract_tokens-words fuel room tags [] h = refl
  extract_tokens-words zero room tags (c ∷ cs) h = elim h [ ]
  extract_tokens-words (suc fuel) room tags (c ∷ cs) h =
      round fuel room tags (skip_separators (c ∷ cs)) (λ r ts.
        extract_tokens-words fuel r ts (after_token (skip_separators (c ∷ cs)))
          (shorter c cs fuel h))
      ∙ ap (push_words room tags) (words-skip (c ∷ cs))

  push_unique_bound :
      (room : ℕ) (tags : List Bytes) (tag : Bytes) (r : ℕ) (out : List Bytes)
      → push_unique ngx room tags tag ≡ some (r, out)
      → length out ≤ suc (length tags)
  unfolding push_unique
  push_unique_bound room tags tag r out e =
      elim (Bool-cases (is_empty tag || is_known ngx tag tags)) [
        | inl old ↦ omega (arith, ap (λ t. length t.1) (some-inj (rw old at e)))
        | inr new ↦ pushed room (rw new at e)
      ]
    where
      pushed :
          (room : ℕ)
          → elim room as (λ _. Option (ℕ × List Bytes)) [
            | zero ↦ none
            | suc left ↦ some (left, tags ++ tag ∷ [])
          ]
            ≡ some (r, out)
          → length out ≤ suc (length tags)
      pushed zero e = absurd (none-ne-some {a = (r, out)} e)
      pushed (suc left) e =
          omega (arith, ap (λ t. length t.1) (some-inj e), length-append tags (tag ∷ []))

  push_words_bound :
      (ws : List Bytes) (room : ℕ) (tags : List Bytes) (r : ℕ) (out : List Bytes)
      → length tags ≤ max_tokens
      → push_words room tags ws ≡ some (r, out)
      → length out ≤ max_tokens
  unfolding push_words
  push_words_bound [] room tags r out h e = omega (arith, h, ap (λ t. length t.1) (some-inj e))
  push_words_bound (w ∷ ws) room tags r out h e = elim (Bool-cases (leb max_tokens (length tags))) [
    | inl full ↦ omega (arith, h, ap (λ t. length t.1) (some-inj (rw (full, push_words) at e)))
    | inr free ↦ elim (Option-cases (push_unique ngx room tags w)) [
      | inl refused ↦ absurd (none-ne-some {a = (r, out)} (rw (free, push_words, refused) at e))
      | inr ((room', tags'), ok) ↦
          push_words_bound ws room' tags' r out
            (ground (arith, free, push_unique_bound room tags w room' tags' ok))
            (rw (free, push_words, ok) at e)
    ]
  ]

  -- A scan with fuel for the bytes of the value never leaves more tags than the limit, if there were not
  -- more before.
  pub extract_tokens_bound :
      (fuel room : ℕ) (tags : List Bytes) (value : Bytes) (r : ℕ) (out : List Bytes)
      → length value ≤ fuel
      → length tags ≤ max_tokens
      → extract_tokens ngx fuel room tags value ≡ some (r, out)
      → length out ≤ max_tokens
  extract_tokens_bound fuel room tags value r out h k e =
      push_words_bound (words_from [] value) room tags r out k
        (sym (extract_tokens-words fuel room tags value h) ∙ e)
