-- ===== src/Registry/Caches.antt =====
-- Each cache is registered once, with one set of tag headers.
use ngx_cache_pilot.Base.{
  ℕ, Bytes, Bool, true, false, ◌≡◌, refl, sym, ◌∙◌, ◌==◌, Option, none, some, none-ne-some, List,
  [], ◌∷◌, ◌++◌, if◌then◌else◌, arith, Bool-cases, Option-cases, ◌⊎◌, inl, inr, true-ne-false,
}
use ngx_cache_pilot.Nginx.{Nginx}
use ngx_cache_pilot.Registry.{HeaderArray, IndexZone, find_cache, headers_equal, register_cache}

module _ (ngx : Nginx) where
  -- No cache stands twice in the array.
  abbrev pub OncePerCache : List IndexZone → Type 0
  OncePerCache [] = Unit
  OncePerCache (z ∷ zs) = (find_cache ngx z.cache zs ≡ none) × OncePerCache zs

  find_cache-append :
      (c : ℕ) (zs : List IndexZone) (z : IndexZone)
      → find_cache ngx c zs ≡ none
      → find_cache ngx c (zs ++ z ∷ []) ≡ (if z.cache == c then some z else none)
  unfolding find_cache
  find_cache-append c [] z e = refl
  find_cache-append c (x ∷ zs) z e = elim (Bool-cases (x.cache == c)) [
    | inl hit ↦ absurd (none-ne-some {a = x} (sym e ∙ (rw (hit, find_cache) refl)))
    | inr miss ↦ rw (miss, find_cache) (find_cache-append c zs z (rw (miss, find_cache) at e))
  ]

  OncePerCache-append :
      (zs : List IndexZone) (z : IndexZone)
      → find_cache ngx z.cache zs ≡ none
      → OncePerCache zs
      → OncePerCache (zs ++ z ∷ [])
  unfolding find_cache
  OncePerCache-append [] z e o = (refl, tt)
  OncePerCache-append (x ∷ zs) z e (o, os) = elim (Bool-cases (x.cache == z.cache)) [
    | inl hit ↦ absurd (none-ne-some {a = x} (sym e ∙ (rw (hit, find_cache) refl)))
    | inr miss ↦ (
      find_cache-append x.cache zs z o ∙ ground (arith, miss),
      OncePerCache-append zs z (rw (miss, find_cache) at e) os,
    )
  ]

  -- If the store is configured, a registration keeps each cache registered at most once. If it succeeds
  -- the cache is registered, with headers that pass the comparison with its own or are the very ones it gave,
  -- and if it fails nothing has changed.
  pub register_cache_lem :
      (room : Bool) (cache : ℕ) (name : Bytes) (headers : Option HeaderArray)
      (zones : List IndexZone)
      → OncePerCache zones
      → let r = register_cache ngx true room (some (cache, name)) headers zones in
        OncePerCache r.0
        × (r.1 ≡ false → r.0 ≡ zones)
        × (r.1 ≡ true
            → (z : IndexZone) × (find_cache ngx cache r.0 ≡ some z)
              × ((headers_equal ngx z.headers headers ≡ true) ⊎ (z.headers ≡ headers)))
  unfolding register_cache
  register_cache_lem room cache name headers zones o =
      elim (Option-cases (find_cache ngx cache zones)) [
        | inr (z, there) ↦ rw (there, register_cache) (o, λ e. refl, λ e. (z, there, inl e))
        | inl gone ↦ elim (Bool-cases room) [
          | inr full ↦
              rw (gone, register_cache, full) (o, λ e. refl, λ e. absurd (true-ne-false (sym e)))
          | inl grows ↦
              rw (gone, register_cache, grows)
                (
                  OncePerCache-append zones fresh gone o,
                  λ e. absurd (true-ne-false e),
                  λ e. (fresh, find_cache-append cache zones fresh gone ∙ ground arith, inr refl),
                )
        ]
      ]
    where
      fresh : IndexZone
      fresh = record { cache = cache; zone_name = name; headers = headers }
