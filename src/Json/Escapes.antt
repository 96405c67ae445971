-- ===== src/Json/Escapes.antt =====
-- The escaped text has the computed length.
use ngx_cache_pilot.Base.{
  ℕ, ◌+◌, Bytes, ◌≡◌, refl, ap, ◌∙◌, ltb, [], ◌∷◌, length, arith, Bool-cases, inl, inr,
}
use ngx_cache_pilot.Json.{
  is_special, json_escaped_len_from, json_escaped_len, escape_byte, json_escape,
}

json_escaped_len_from_lem :
    (n : ℕ) (v : Bytes) → json_escaped_len_from (n + length v) v ≡ n + length (json_escape v)
unfolding json_escaped_len_from json_escape escape_byte
json_escaped_len_from_lem n [] = refl
json_escaped_len_from_lem n (c ∷ cs) = elim (Bool-cases (is_special c)) [
  | inl s ↦ rw s (
      ap (λ k. json_escaped_len_from k cs) (omega arith)
      ∙ json_escaped_len_from_lem (n + 2) cs
      ∙ omega arith)
  | inr o ↦ elim (Bool-cases (ltb c 32)) [
    | inl low ↦
        rw (o, low)
          (ap (λ k. json_escaped_len_from k cs) (omega arith)
            ∙ json_escaped_len_from_lem (n + 6) cs
            ∙ omega arith)
    | inr high ↦
        rw (o, high)
          (ap (λ k. json_escaped_len_from k cs) (omega arith)
            ∙ json_escaped_len_from_lem (n + 1) cs
            ∙ omega arith)
  ]
]

-- The space computed for an escaped text is exactly what writing it takes.
pub json_escaped_len_lem : (v : Bytes) → json_escaped_len v ≡ length (json_escape v)
unfolding json_escaped_len
json_escaped_len_lem v =
    ap (λ k. json_escaped_len_from k v) (omega arith) ∙ json_escaped_len_from_lem 0 v ∙ omega arith
