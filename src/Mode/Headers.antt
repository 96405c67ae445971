-- ===== src/Mode/Headers.antt =====
-- The first header with the configured name decides.
use ngx_cache_pilot.Base.{
  ℕ, Bytes, Bool, true, false, ◌≡◌, refl, sym, ap, ◌∙◌, some, List, [], ◌∷◌, ◌++◌, All, append-nil,
}
use ngx_cache_pilot.Nginx.{Nginx}
use ngx_cache_pilot.Mode.{is_soft_value, is_mode_header, first_mode, request_mode}

module _ (ngx : Nginx) (mode_header : Bytes) where
  abbrev pub Others : List (Bytes × Bytes) → Type 0
  Others = All (λ h. is_mode_header ngx mode_header h.0 ≡ false)

  first_mode-skip :
      (d : Bool) (pre hs : List (Bytes × Bytes))
      → Others pre
      → first_mode ngx d mode_header (pre ++ hs) ≡ first_mode ngx d mode_header hs
  unfolding first_mode
  first_mode-skip d [] hs o = refl
  first_mode-skip d ((k, v) ∷ pre) hs (o, os) = rw (o, first_mode) (first_mode-skip d pre hs os)

-- With a mode header of at least one byte, the first request header of that name decides, whatever
-- stands behind it and whatever the default; without such a header the default does.
pub request_mode_lem :
    (ngx : Nginx) (c : ℕ) (cs : Bytes) (d : Bool) (pre post : List (Bytes × Bytes))
    (key value : Bytes)
    → Others ngx (c ∷ cs) pre
    → is_mode_header ngx (c ∷ cs) key ≡ true
    → (request_mode ngx d (some (c ∷ cs)) (pre ++ (key, value) ∷ post) ≡ is_soft_value ngx value)
      × (request_mode ngx d (some (c ∷ cs)) pre ≡ d)
unfolding request_mode first_mode
request_mode_lem ngx c cs d pre post key value o e = (
  first_mode-skip ngx (c ∷ cs) d pre ((key, value) ∷ post) o ∙ (rw (e, first_mode) refl),
  ap (first_mode ngx d (c ∷ cs)) (sym (append-nil pre)) ∙ first_mode-skip ngx (c ∷ cs) d pre [] o,
)
