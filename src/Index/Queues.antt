-- ===== src/Index/Queues.antt =====
-- What the operations on an index do to the queues of its entries.
use ngx_cache_pilot.Base.{
  none-ne-some, Bytes, Bool, true, false, ◌≡◌, refl, sym, ap, ◌∙◌, ◌==ᵇ◌, ==ᵇ_sound, ==ᵇ_refl, ◌⊎◌,
  inl, inr, Option, none, some, List, [], ◌∷◌, if◌then◌else◌, map, map-append, All, In, arith,
  Bool-cases, Ordering, subst,
}
use ngx_cache_pilot.Nginx.{Nginx}
use ngx_cache_pilot.Tree.{Tree, sentinel, branch, to_list}
use ngx_cache_pilot.Tree.Order.{Sorted, Before, All-In}
use ngx_cache_pilot.Tree.Lookup.{lookup_generic_sound, lookup_generic_complete}
use ngx_cache_pilot.Index.{Entry, at_entry, write_entry, queue_of, lookup_entry}

-- An entry with the text is in the list.
abbrev pub has : Bytes → List Entry → Bool
has k [] = false
has k (e ∷ es) = if e.text ==ᵇ k then true else has k es

pub to_list-write_entry :
    (k : Bytes) (f : List Bytes → List Bytes) (t : Tree Entry)
    → to_list (write_entry k f t) ≡ map (at_entry k f) (to_list t)
to_list-write_entry k f sentinel = refl
to_list-write_entry k f (branch l e r) =
    rw (to_list-write_entry k f l, to_list-write_entry k f r)
      (sym (map-append (at_entry k f) (to_list l) (e ∷ to_list r)))

pub has-map :
    (k : Bytes) (f : List Bytes → List Bytes) (j : Bytes) (es : List Entry)
    → has j (map (at_entry k f) es) ≡ has j es
has-map k f j [] = refl
has-map k f j (e ∷ es) = ground (arith, has-map k f j es)

-- Writing through a pointer changes that entry's queue alone.
pub queue_of-map :
    (k : Bytes) (f : List Bytes → List Bytes) (j : Bytes) (es : List Entry)
    → queue_of j (map (at_entry k f) es)
      ≡ (if has j es then (if j ==ᵇ k then f (queue_of j es) else queue_of j es) else [])
queue_of-map k f j [] = refl
queue_of-map k f j (e ∷ es) = elim (Bool-cases (e.text ==ᵇ j)) [
  | inl hit ↦ ground (arith, ap (λ t. t ==ᵇ k) (==ᵇ_sound e.text j hit), hit)
  | inr miss ↦ ground (arith, queue_of-map k f j es, miss)
]

pub queue_of_missing : (k : Bytes) (es : List Entry) → has k es ≡ false → queue_of k es ≡ []
queue_of_missing k [] h = refl
queue_of_missing k (e ∷ es) h = ground (arith, queue_of_missing k es)

lt-ne-eq : Ordering.lt ≡ Ordering.eq → ⊥
lt-ne-eq e = cc

module _ (ngx : Nginx) where
  abbrev pub SortedEntries : List Entry → Type 0
  SortedEntries = Sorted (λ e. e.node_key) (λ e. e.text) ngx.memn2cmp

  abbrev pub Hashed : List Entry → Type 0
  Hashed = All (λ e. e.node_key ≡ ngx.crc32_short e.text)

  -- The tree is ordered, and each entry stands under the checksum of its text.
  pub record IsIndex (index : Tree Entry) : Type 0 where
    pub sorted : SortedEntries (to_list index)
    pub hashed : Hashed (to_list index)

  abbrev pub Lacks : Bytes → List Entry → Type 0
  Lacks k = All (λ e. (e.text ==ᵇ k) ≡ false)

  abbrev pub Unique : List Entry → Type 0
  Unique [] = Unit
  Unique (e ∷ es) = Lacks e.text es × Unique es

  Before-ne :
      (e x : Entry)
      → e.node_key ≡ ngx.crc32_short e.text
      → x.node_key ≡ ngx.crc32_short x.text
      → Before (λ e. e.node_key) (λ e. e.text) ngx.memn2cmp e x
      → (x.text ==ᵇ e.text) ≡ false
  Before-ne e x he hx b = elim (Bool-cases (x.text ==ᵇ e.text)) [
    | inl same ↦ absurd (clash (==ᵇ_sound x.text e.text same) b)
    | inr no' ↦ no'
  ]
    where
      clash : x.text ≡ e.text → Before (λ e. e.node_key) (λ e. e.text) ngx.memn2cmp e x → ⊥
      clash same (inl p) = omega (arith, he, hx, ap ngx.crc32_short same)
      clash same (inr (p, q)) =
          lt-ne-eq
            (sym q ∙ ap (λ t. ngx.memn2cmp e.text t) same ∙ ngx.memn2cmp_total.refl_of e.text)

  pub Sorted-Unique : (es : List Entry) → SortedEntries es → Hashed es → Unique es
  Sorted-Unique [] s h = tt
  Sorted-Unique (e ∷ es) (s, ss) (h, hs) = (apart es s hs, Sorted-Unique es ss hs)
    where
      apart :
          (xs : List Entry)
          → All (Before (λ e. e.node_key) (λ e. e.text) ngx.memn2cmp e) xs
          → Hashed xs
          → Lacks e.text xs
      apart [] k g = tt
      apart (x ∷ xs) (k, ks) (g, gs) = (Before-ne e x h g k, apart xs ks gs)

  pub Lacks-has : (k : Bytes) (es : List Entry) → Lacks k es → has k es ≡ false
  Lacks-has k [] l = refl
  Lacks-has k (e ∷ es) (l, ls) = ground (arith, Lacks-has k es ls)

  -- A lookup agrees with a scan of the entries.
  pub data Found (index : Tree Entry) (k : Bytes) : Option Entry → Type 0 where
    missing : has k (to_list index) ≡ false → Found index k none
    present :
        (e : Entry)
        → has k (to_list index) ≡ true
        → e.text ≡ k
        → e.files ≡ queue_of k (to_list index)
        → Found index k (some e)

  Lacks-In :
      (k : Bytes) (e : Entry) (es : List Entry) → Lacks k es → In e es → (e.text ==ᵇ k) ≡ false
  Lacks-In k e [] l m = elim m [ ]
  Lacks-In k e (x ∷ es) (l, ls) (inl q) = subst (λ y. (y.text ==ᵇ k) ≡ false) (sym q) l
  Lacks-In k e (x ∷ es) (l, ls) (inr m) = Lacks-In k e es ls m

  queue_of-In :
      (e : Entry) (es : List Entry)
      → Unique es
      → In e es
      → (queue_of e.text es ≡ e.files) × (has e.text es ≡ true)
  queue_of-In e [] u m = elim m [ ]
  queue_of-In e (x ∷ es) (u, us) (inl q) =
      subst (λ y. (queue_of y.text (x ∷ es) ≡ y.files) × (has y.text (x ∷ es) ≡ true)) (sym q)
        (ground (arith, ==ᵇ_refl x.text))
  queue_of-In e (x ∷ es) (u, us) (inr m) = ground (
    arith,
    Lacks-In x.text e es u m,
    flip (Bool-cases (x.text ==ᵇ e.text)) (Lacks-In x.text e es u m),
    queue_of-In e es us m,
  )
    where
      flip :
          ((x.text ==ᵇ e.text) ≡ true) ⊎ ((x.text ==ᵇ e.text) ≡ false)
          → (e.text ==ᵇ x.text) ≡ false
          → (x.text ==ᵇ e.text) ≡ false
      flip (inl same) d =
          ground (arith, ap (λ t. t ==ᵇ x.text) (==ᵇ_sound x.text e.text same), ==ᵇ_refl x.text)
      flip (inr p) d = p

  has-In : (k : Bytes) (es : List Entry) → has k es ≡ true → (e : Entry) × In e es × (e.text ≡ k)
  has-In k [] h = cc
  has-In k (e ∷ es) h = elim (Bool-cases (e.text ==ᵇ k)) [
    | inl hit ↦ (e, inl refl, ==ᵇ_sound e.text k hit)
    | inr miss ↦ let (x, m, q) = has-In k es (ground (arith, miss)) in (x, inr m, q)
  ]

  -- In a well-formed index the lookup finds an entry exactly if there is one with the text, and its files
  -- are those of the text's queue.
  pub lookup_entry-Found :
      (index : Tree Entry) (k : Bytes) → IsIndex index → Found index k (lookup_entry ngx index k)
  unfolding lookup_entry
  lookup_entry-Found index k w = go (lookup_entry ngx index k) refl
    where
      es : List Entry
      es = to_list index

      go : (o : Option Entry) → lookup_entry ngx index k ≡ o → Found index k o
      go none q = missing (absent (Bool-cases (has k es)))
        where
          absent : (has k es ≡ true) ⊎ (has k es ≡ false) → has k es ≡ false
          absent (inr h) = h
          absent (inl h) =
              let (e, m, t) = has-In k es h in
              let at : e.node_key ≡ ngx.crc32_short k =
                All-In (λ x. x.node_key ≡ ngx.crc32_short x.text) e es w.hashed m
                ∙ ap ngx.crc32_short t in
              absurd (
                none-ne-some {a = e} (
                  sym q
                  ∙ (rw (← at, ← t)
                      (lookup_generic_complete (λ e. e.node_key) (λ e. e.text) ngx.memn2cmp
                        ngx.memn2cmp_total index e w.sorted m))))
      go (some e) q =
          let (m, _, t) =
            lookup_generic_sound (λ e. e.node_key) (λ e. e.text) ngx.memn2cmp ngx.memn2cmp_total
              (ngx.crc32_short k) k index e q in
          let (f, h) = queue_of-In e es (Sorted-Unique es w.sorted w.hashed) m in
          present e (subst (λ t. has t es ≡ true) t h) t (sym f ∙ ap (λ t. queue_of t es) t)
