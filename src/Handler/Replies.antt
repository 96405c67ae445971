-- ===== src/Handler/Replies.antt =====
-- The handler answers every purge of a key that does not fail with a response.
use ngx_cache_pilot.Base.{
  ℕ, Bool, true, false, ◌||◌, ◌≡◌, refl, ap, ◌∙◌, Option, none, some, none-ne-some, map_option, ◌⊎◌,
  inl, inr, if◌then◌else◌,
}
use ngx_cache_pilot.Nginx.{Nginx, Rc, ok, declined, error}
use ngx_cache_pilot.Os.{Os}
use ngx_cache_pilot.Response.{decline_reason}
use ngx_cache_pilot.Purge.{not_found}
use ngx_cache_pilot.Request.{Call, Context, is_partial, set_decline_reason}
use ngx_cache_pilot.Request.World.{World}
use ngx_cache_pilot.Exact.{not_found_in, exact_purge, exact_purge_soft}
use ngx_cache_pilot.Exact.Kept.{NamedZone, SoundWorld, exact_purge_lem, exact_purge_soft_lem}
use ngx_cache_pilot.Handler.{response, internal_error, handler_rc, reply_to, handler}

module _ (ngx : Nginx) (os : Os) (now : ℕ) where
  -- What a purge of a key does to a world with a context.
  abbrev pub Purged : World ngx os → World ngx os × Rc → Type 0
  Purged w r = SoundWorld ngx os r.0 × (r.1 ≡ declined → r.0 ≡ not_found_in ngx os w)

  handler_rc-Purged :
      (tagged all soft : Bool) (call : Call) (w : World ngx os)
      → NamedZone call
      → SoundWorld ngx os w
      → Purged w (handler_rc ngx os now tagged all soft call w)
  unfolding handler_rc
  handler_rc-Purged tagged all soft call w named v =
      by_tests (tagged || all || is_partial call.keys) soft
    where
      by_tests :
          (a b : Bool)
          → Purged w (
              if a
              then (w, ok)
              else if b
              then exact_purge_soft ngx os call w
              else exact_purge ngx os now call w)
      by_tests true b = (v, λ e. cc)
      by_tests false true = let (v', _, same) = exact_purge_soft_lem ngx os call w v in (v', same)
      by_tests false false = exact_purge_lem ngx os now call w named v

  -- A declined purge notes in the context that nothing was found.
  noted :
      (c : Context) (w u : World ngx os)
      → w.notes.context ≡ some c
      → u ≡ not_found_in ngx os w
      → decline_reason (map_option (λ x. x.reason) u.notes.context) ≡ not_found
  unfolding set_decline_reason decline_reason
  noted c w u there same =
      ap (λ z. decline_reason (map_option (λ (x : Context). x.reason) z.notes.context)) same
      ∙ by_context w.notes.context there
    where
      by_context :
          (o : Option Context)
          → o ≡ some c
          → decline_reason (
              map_option
                (λ (x : Context). x.reason)
                (map_option {A = Context} {B = Context} (λ x. record x { reason = not_found }) o))
            ≡ not_found
      by_context none e = absurd (none-ne-some {a = c} e)
      by_context (some d) e = refl

  -- A request with a context, over a cache in order whose zone has a NUL-free name and over a reachable store, is answered with a
  -- response, whether its purge found something or not, and with an internal error only if the purge failed.
  pub handler-reply :
      (tagged all json soft : Bool) (call : Call) (w : World ngx os) (c : Context)
      → NamedZone call
      → SoundWorld ngx os w
      → w.notes.context ≡ some c
      → ((handler ngx os now tagged all json soft call w).1 ≡ response)
        ⊎ (((handler ngx os now tagged all json soft call w).1 ≡ internal_error)
            × ((handler_rc ngx os now tagged all soft call w).1 ≡ error))
  unfolding handler reply_to
  handler-reply tagged all json soft call w c named v there =
      by_result (handler_rc ngx os now tagged all soft call w)
        (handler_rc-Purged tagged all soft call w named v).1
    where
      by_result :
          (r : World ngx os × Rc)
          → (r.1 ≡ declined → r.0 ≡ not_found_in ngx os w)
          → ((reply_to ngx os now json soft r).1 ≡ response)
            ⊎ (((reply_to ngx os now json soft r).1 ≡ internal_error) × (r.1 ≡ error))
      by_result (u, ok) same = inl refl
      by_result (u, error) same = inr (refl, refl)
      by_result (u, declined) same = inl (rw (noted c w u there (same refl), reply_to) refl)
