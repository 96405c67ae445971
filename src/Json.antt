-- ===== src/Json.antt =====
-- Escaping for the JSON of the statistics (`json_escape` in src/ngx_cache_pilot_module.c).
pub mod Escapes
use ngx_cache_pilot.Base.{
  ℕ, ◌+◌, ◌/◌, ◌%◌, Bytes, Bool, true, false, ◌||◌, ◌==◌, ltb, List, [], ◌∷◌, ◌++◌, length,
  if◌then◌else◌,
}

-- `"` and `\`.
abbrev pub is_special : ℕ → Bool
is_special c = c == 34 || c == 92

-- The digit of `hex` for a value below 16.
abbrev pub hex : ℕ → ℕ
hex n = if ltb n 10 then 48 + n else 87 + n

pub json_escaped_len_from : ℕ → Bytes → ℕ
json_escaped_len_from len [] = len
json_escaped_len_from len (c ∷ cs) =
    if is_special c
    then json_escaped_len_from (len + 1) cs
    else if ltb c 32
    then json_escaped_len_from (len + 5) cs
    else json_escaped_len_from len cs

pub json_escaped_len : Bytes → ℕ
json_escaped_len value = json_escaped_len_from (length value) value

-- What is written for one byte, and for all.
pub escape_byte : ℕ → Bytes
escape_byte c =
    if is_special c
    then 92 ∷ c ∷ []
    else if ltb c 32
    then 92 ∷ 117 ∷ 48 ∷ 48 ∷ hex (c / 16) ∷ hex (c % 16) ∷ []
    else c ∷ []

pub json_escape : Bytes → Bytes
unfolding escape_byte
json_escape [] = []
json_escape (c ∷ cs) = escape_byte c ++ json_escape cs
