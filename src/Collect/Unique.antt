-- ===== src/Collect/Unique.antt =====
-- Pushing paths without repetition.
use ngx_cache_pilot.Base.{
  ℕ, zero, suc, ◌≤◌, ◌+◌, Bytes, Bool, true, false, ◌≡◌, refl, sym, ap, ◌∙◌, ◌==ᵇ◌, ==ᵇ_sound,
  ==ᵇ_flip, Option, none, some, some-inj, List, [], ◌∷◌, ◌++◌, length, if◌then◌else◌,
  same_string-==ᵇ, NulFree, All, All-append, arith, Bool-cases, Option-cases, none-ne-some, inl,
  inr, subst,
}
use ngx_cache_pilot.Zone.Links.{has_path, has_path-append}
use ngx_cache_pilot.Collect.{is_listed, push_path_unique, push_queue}

abbrev pub Distinct : List Bytes → Type 0
Distinct [] = Unit
Distinct (p ∷ ps) = (has_path p ps ≡ false) × Distinct ps

-- `out` holds the paths of `paths` and of `more`, and no path twice.
pub record Collected (paths : List Bytes) (more : Bytes → Bool) (out : List Bytes) : Type 0 where
  pub answer : (p : Bytes) → has_path p out ≡ (if has_path p paths then true else more p)
  pub clean : All NulFree out
  pub distinct : Distinct out

is_listed-has_path :
    (path : Bytes) (ps : List Bytes) → All NulFree ps → is_listed path ps ≡ has_path path ps
unfolding is_listed
is_listed-has_path path [] c = refl
is_listed-has_path path (p ∷ ps) (c, cs) =
    ground (arith, same_string-==ᵇ p path c, is_listed-has_path path ps cs)

pub Distinct-append :
    (q : Bytes) (ps : List Bytes) → Distinct ps → has_path q ps ≡ false → Distinct (ps ++ q ∷ [])
Distinct-append q [] d h = (refl, tt)
Distinct-append q (p ∷ ps) (d, ds) h = elim (Bool-cases (p ==ᵇ q)) [
  | inl same ↦ absurd (false-ne (rw same at h))
  | inr other ↦ (
    rw (has_path-append p ps (q ∷ [])) (ground (arith, d, ==ᵇ_flip p q other)),
    Distinct-append q ps ds (rw other at h),
  )
]
  where
    false-ne : true ≡ false → ⊥
    false-ne e = cc

-- One path more.
pub push_path_unique-Collected :
    (room : ℕ) (paths : List Bytes) (path : Bytes) (r : ℕ) (out : List Bytes)
    → All NulFree paths
    → NulFree path
    → Distinct paths
    → push_path_unique room paths path ≡ some (r, out)
    → Collected paths (λ p. path ==ᵇ p) out
unfolding push_path_unique
push_path_unique-Collected room paths path r out c cp d e =
    elim (Bool-cases (is_listed path paths)) [
      | inl old ↦
          subst (Collected paths (λ p. path ==ᵇ p)) (ap (λ t. t.1) (some-inj (rw old at e)))
            (record {
              answer = λ p. kept p (sym (is_listed-has_path path paths c) ∙ old);
              clean = c;
              distinct = d;
            })
      | inr new ↦ pushed room (sym (is_listed-has_path path paths c) ∙ new) (rw new at e)
    ]
  where
    kept :
        (p : Bytes)
        → has_path path paths ≡ true
        → has_path p paths ≡ (if has_path p paths then true else path ==ᵇ p)
    kept p h = elim (Bool-cases (path ==ᵇ p)) [
      | inl same ↦ ground (arith, same, h, ap (λ t. has_path t paths) (==ᵇ_sound path p same))
      | inr other ↦ ground (arith, other)
    ]

    pushed :
        (room : ℕ)
        → has_path path paths ≡ false
        → elim room as (λ _. Option (ℕ × List Bytes)) [
          | zero ↦ none
          | suc left ↦ some (left, paths ++ path ∷ [])
        ]
          ≡ some (r, out)
        → Collected paths (λ p. path ==ᵇ p) out
    pushed zero h e = absurd (none-ne-some {a = (r, out)} e)
    pushed (suc left) h e =
        subst (Collected paths (λ p. path ==ᵇ p)) (ap (λ t. t.1) (some-inj e)) (record {
          answer = λ p. has_path-append p paths (path ∷ []) ∙ ground arith;
          clean = All-append NulFree paths (path ∷ []) c (cp, tt);
          distinct = Distinct-append path paths d h;
        })

-- A queue of paths more.
pub push_queue-Collected :
    (ps : List Bytes) (room : ℕ) (paths : List Bytes) (r : ℕ) (out : List Bytes)
    → All NulFree paths
    → All NulFree ps
    → Distinct paths
    → push_queue room paths ps ≡ some (r, out)
    → Collected paths (λ p. has_path p ps) out
unfolding push_queue
push_queue-Collected [] room paths r out c cp d e =
    subst (Collected paths (λ p. false)) (ap (λ t. t.1) (some-inj e))
      (record { answer = λ p. ground arith; clean = c; distinct = d })
push_queue-Collected (q ∷ ps) room paths r out c (cq, cp) d e =
    elim (Option-cases (push_path_unique room paths q)) [
      | inl failed ↦ absurd (none-ne-some {a = (r, out)} (rw failed at e))
      | inr ((room', paths'), ok) ↦
          let one = push_path_unique-Collected room paths q room' paths' c cq d ok in
          let rest =
            push_queue-Collected ps room' paths' r out one.clean cp one.distinct (rw ok at e) in
          record {
            answer = λ p. rest.answer p ∙ ground (arith, one.answer p);
            clean = rest.clean;
            distinct = rest.distinct;
          }
    ]

-- With room for all paths of the queue none of them fails.
pub push_queue_total :
    (ps : List Bytes) (room : ℕ) (paths : List Bytes)
    → length ps ≤ room
    → (r : ℕ) × (out : List Bytes) × (push_queue room paths ps ≡ some (r, out))
      × (room ≤ r + length ps)
unfolding push_queue push_path_unique
push_queue_total [] room paths h = (room, paths, refl, omega arith)
push_queue_total (q ∷ ps) zero paths h = elim h [ ]
push_queue_total (q ∷ ps) (suc left) paths h = elim (Bool-cases (is_listed q paths)) [
  | inl old ↦
      let (r, out, e, k) = push_queue_total ps (suc left) paths (omega arith) in
      (r, out, rw (old, push_path_unique) e, omega arith)
  | inr new ↦
      let (r, out, e, k) = push_queue_total ps left (paths ++ q ∷ []) (omega arith) in
      (r, out, rw (new, push_path_unique) e, omega arith)
]
