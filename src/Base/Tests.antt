-- ===== src/Base/Tests.antt =====
-- Boolean tests on the native numbers, the conditional, texts as bytes, and case lemmas.
use Prim.Native.Nat.{ℕ, ◌≤◌, ◌<◌, compare, Ordering}
use Prim.Native.Char.{code}
use Prim.Native.String.{String}
use mathlib.Core.Path.{◌≡◌, refl, sym, ap, ◌∙◌}
use mathlib.Core.Logic.{◌↔◌, ◌⊎◌, inl, inr}
use mathlib.Core.Bool.{Bool, true, false}
use mathlib.Core.List.{List, [], ◌∷◌}
use mathlib.Core.Option.{Option, none, some}
use native.Mathlib.Omega.{arith}

abbrev pub ltb : ℕ → ℕ → Bool
ltb a b = elim (compare a b) [ Ordering.lt ↦ true | _ ↦ false ]

abbrev pub leb : ℕ → ℕ → Bool
leb a b = elim (compare a b) [ Ordering.gt ↦ false | _ ↦ true ]

infix 50 ◌==◌
abbrev pub ◌==◌ : ℕ → ℕ → Bool
a == b = elim (compare a b) [ Ordering.eq ↦ true | _ ↦ false ]

infix 1 if◌then◌else◌
abbrev pub if◌then◌else◌ {ℓ} : {A : Type ℓ} → Bool → A → A → A
if true then x else y = x
if false then x else y = y

pub ltb→lt : (a b : ℕ) → ltb a b ≡ true → a < b
ltb→lt a b h = ground arith

pub lt→ltb : (a b : ℕ) → a < b → ltb a b ≡ true
lt→ltb a b h = ground arith

pub leb→le : (a b : ℕ) → leb a b ≡ true → a ≤ b
leb→le a b h = ground arith

pub ==_iff : (a b : ℕ) → ((a == b) ≡ true) ↔ (a ≡ b)
==_iff a b = ground arith

pub Bool-cases : (b : Bool) → (b ≡ true) ⊎ (b ≡ false)
Bool-cases true = inl refl
Bool-cases false = inr refl

pub Option-cases {ℓ} : {A : Type ℓ} (o : Option A) → (o ≡ none) ⊎ ((a : A) × (o ≡ some a))
Option-cases none = inl refl
Option-cases (some a) = inr (a, refl)

-- Bytes, and those of an ASCII literal.
abbrev pub Bytes : Type 0
Bytes = List ℕ

abbrev pub codes : String → Bytes
codes String.[] = []
codes (String.◌∷◌ c s) = code c ∷ codes s

-- Equality of byte strings, as `len` and the bytes agree.
infix 50 ◌==ᵇ◌
abbrev pub ◌==ᵇ◌ : Bytes → Bytes → Bool
[] ==ᵇ [] = true
[] ==ᵇ (y ∷ ys) = false
(x ∷ xs) ==ᵇ [] = false
(x ∷ xs) ==ᵇ (y ∷ ys) = if x == y then xs ==ᵇ ys else false

pub ==ᵇ_sound : (a b : Bytes) → (a ==ᵇ b) ≡ true → a ≡ b
==ᵇ_sound [] [] h = refl
==ᵇ_sound [] (y ∷ ys) h = cc
==ᵇ_sound (x ∷ xs) [] h = cc
==ᵇ_sound (x ∷ xs) (y ∷ ys) h = ground (arith, ==ᵇ_sound xs ys)

pub ==ᵇ_refl : (a : Bytes) → (a ==ᵇ a) ≡ true
==ᵇ_refl [] = refl
==ᵇ_refl (x ∷ xs) = ground (arith, ==ᵇ_refl xs)

pub true-ne-false : true ≡ false → ⊥
true-ne-false e = cc

pub none-ne-some : {A : Type 0} {a : A} → none ≡ some a → ⊥
none-ne-some e = cc

pub some-inj : {A : Type 0} {a b : A} → some a ≡ some b → a ≡ b
some-inj e = cc

pub ==ᵇ_flip : (a b : Bytes) → (a ==ᵇ b) ≡ false → (b ==ᵇ a) ≡ false
==ᵇ_flip a b m = elim (Bool-cases (b ==ᵇ a)) [
  | inr f ↦ f
  | inl t ↦
      absurd (true-ne-false (sym (==ᵇ_refl a) ∙ ap (λ z. a ==ᵇ z) (sym (==ᵇ_sound b a t)) ∙ m))
]

pub ==ᵇ_comm : (a b : Bytes) → (a ==ᵇ b) ≡ (b ==ᵇ a)
==ᵇ_comm [] [] = refl
==ᵇ_comm [] (y ∷ ys) = refl
==ᵇ_comm (x ∷ xs) [] = refl
==ᵇ_comm (x ∷ xs) (y ∷ ys) = ground (arith, ==ᵇ_comm xs ys)
