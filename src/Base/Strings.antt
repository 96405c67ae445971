-- ===== src/Base/Strings.antt =====
-- `strncmp` of the C library, and the equality tests that the module builds on it.
use Prim.Native.Nat.{ℕ, zero, suc}
use mathlib.Core.Path.{◌≡◌, refl}
use mathlib.Core.Bool.{Bool, true, false, ◌&&◌}
use mathlib.Core.Logic.{◌≢◌}
use mathlib.Core.List.{[], ◌∷◌}
use native.Mathlib.Omega.{arith}
use ngx_cache_pilot.Base.Tests.{Bytes, ◌==◌, ◌==ᵇ◌, if◌then◌else◌, ltb}
use ngx_cache_pilot.Base.Lists.{length, All}

-- `strncmp(a, b, n) == 0`: it stops at a NUL, and a string's end counts as one.
unfoldable pub strncmp_eq : ℕ → Bytes → Bytes → Bool
strncmp_eq zero a b = true
strncmp_eq (suc n) [] [] = true
strncmp_eq (suc n) [] (y ∷ ys) = y == 0
strncmp_eq (suc n) (x ∷ xs) [] = x == 0
strncmp_eq (suc n) (x ∷ xs) (y ∷ ys) =
    if x == y then (if x == 0 then true else strncmp_eq n xs ys) else false

-- `a.len == b.len && ngx_strncmp(a.data, b.data, b.len) == 0`.
unfoldable pub same_string : Bytes → Bytes → Bool
unfolding strncmp_eq
same_string a b = (length a == length b) && strncmp_eq (length b) a b

abbrev pub NulFree : Bytes → Type 0
NulFree = All (λ c. c ≢ 0)

-- On a string without NUL the test is equality.
pub same_string-==ᵇ : (a b : Bytes) → NulFree a → same_string a b ≡ (a ==ᵇ b)
unfolding same_string
same_string-==ᵇ [] [] h = refl
same_string-==ᵇ [] (y ∷ ys) h = ground arith
same_string-==ᵇ (x ∷ xs) [] h = ground arith
same_string-==ᵇ (x ∷ xs) (y ∷ ys) (h, hs) = ground (arith, same_string-==ᵇ xs ys hs)

-- The first string begins the second.
abbrev pub begins : Bytes → Bytes → Bool
begins [] ys = true
begins (x ∷ xs) [] = false
begins (x ∷ xs) (y ∷ ys) = if x == y then begins xs ys else false

pub strncmp_eq-begins :
    (prefix key : Bytes)
    → NulFree prefix
    → (if ltb (length key) (length prefix) then false else strncmp_eq (length prefix) key prefix)
      ≡ begins prefix key
unfolding strncmp_eq
strncmp_eq-begins [] [] h = refl
strncmp_eq-begins [] (y ∷ ys) h = ground arith
strncmp_eq-begins (x ∷ xs) [] h = ground arith
strncmp_eq-begins (x ∷ xs) (y ∷ ys) (h, hs) = ground (arith, strncmp_eq-begins xs ys hs)
