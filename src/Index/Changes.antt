-- ===== src/Index/Changes.antt =====
-- Every operation on an index keeps it well formed, and what it does to the queues.
use ngx_cache_pilot.Base.{
  remove_first, All-remove_first, Bytes, Bool, true, false, ◌≡◌, refl, sym, ◌∙◌, ◌==ᵇ◌, ==ᵇ_sound,
  inl, inr, Option, none, some, List, [], ◌∷◌, ◌++◌, if◌then◌else◌, map, All, arith, Bool-cases,
  subst,
}
use ngx_cache_pilot.Nginx.{Nginx}
use ngx_cache_pilot.Tree.{Tree, to_list}
use ngx_cache_pilot.Tree.Order.{Sorted-remove_first, Before}
use ngx_cache_pilot.Tree.Lookup.{
  insert_generic-Splits, insert_generic-Sorted, Apart, Splits, lookup_generic-Apart,
}
use ngx_cache_pilot.Index.{
  Entry, at_entry, write_entry, queue_of, is_empty, lookup_entry, new_entry, insert_entry,
  push_file, unlink_file, free_empty_entry,
}
use ngx_cache_pilot.Index.Queues.{
  has, queue_of-map, queue_of_missing, to_list-write_entry, IsIndex, SortedEntries, Hashed, Found,
  present, lookup_entry-Found, Unique, Sorted-Unique, Lacks-has,
}

false-ne-true : false ≡ true → ⊥
false-ne-true e = cc

is_empty-nil : (q : List Bytes) → is_empty q ≡ true → q ≡ []
is_empty-nil [] h = refl
is_empty-nil (p ∷ ps) h = cc

module _ (ngx : Nginx) where
  Sorted-map :
      (k : Bytes) (f : List Bytes → List Bytes) (es : List Entry)
      → SortedEntries ngx es
      → SortedEntries ngx (map (at_entry k f) es)
  Sorted-map k f [] s = tt
  Sorted-map k f (e ∷ es) (s, ss) = (past es s, Sorted-map k f es ss)
    where
      past :
          (xs : List Entry)
          → All (Before (λ e. e.node_key) (λ e. e.text) ngx.memn2cmp e) xs
          → All
              (Before (λ e. e.node_key) (λ e. e.text) ngx.memn2cmp (at_entry k f e))
              (map (at_entry k f) xs)
      past [] h = tt
      past (x ∷ xs) (h, hs) = (ground (arith, h), past xs hs)

  Hashed-map :
      (k : Bytes) (f : List Bytes → List Bytes) (es : List Entry)
      → Hashed ngx es
      → Hashed ngx (map (at_entry k f) es)
  Hashed-map k f [] h = tt
  Hashed-map k f (e ∷ es) (h, hs) = (ground (arith, h), Hashed-map k f es hs)

  pub write_entry-IsIndex :
      (k : Bytes) (f : List Bytes → List Bytes) (index : Tree Entry)
      → IsIndex ngx index
      → IsIndex ngx (write_entry k f index)
  write_entry-IsIndex k f index w = record {
    sorted = rw (to_list-write_entry k f index) (Sorted-map k f (to_list index) w.sorted);
    hashed = rw (to_list-write_entry k f index) (Hashed-map k f (to_list index) w.hashed);
  }

  -- Deletion of one node.
  pub rbtree_delete-IsIndex :
      (hit : Entry → Bool) (index : Tree Entry)
      → IsIndex ngx index
      → IsIndex ngx (ngx.rbtree_delete Entry hit index)
  rbtree_delete-IsIndex hit index w = record {
    sorted = rw (ngx.rbtree_delete_lem Entry hit index) (
        Sorted-remove_first (λ e. e.node_key) (λ e. e.text) ngx.memn2cmp hit (to_list index)
          w.sorted);
    hashed =
        rw (ngx.rbtree_delete_lem Entry hit index) (
          All-remove_first (λ e. e.node_key ≡ ngx.crc32_short e.text) hit (to_list index) w.hashed);
  }

  pub free_empty_entry-IsIndex :
      (k : Bytes) (index : Tree Entry)
      → IsIndex ngx index
      → IsIndex ngx (free_empty_entry ngx index k)
  unfolding free_empty_entry
  free_empty_entry-IsIndex k index w = elim (Bool-cases (is_empty (queue_of k (to_list index)))) [
    | inl h ↦ rw h (rbtree_delete-IsIndex (λ e. e.text ==ᵇ k) index w)
    | inr h ↦ rw h w
  ]

  has-append :
      (k : Bytes) (xs ys : List Entry) → has k (xs ++ ys) ≡ (if has k xs then true else has k ys)
  has-append k [] ys = refl
  has-append k (x ∷ xs) ys = ground (arith, has-append k xs ys)

  queue_of-append :
      (k : Bytes) (xs ys : List Entry)
      → queue_of k (xs ++ ys) ≡ (if has k xs then queue_of k xs else queue_of k ys)
  queue_of-append k [] ys = refl
  queue_of-append k (x ∷ xs) ys = ground (arith, queue_of-append k xs ys)

  module _ (k : Bytes) (index : Tree Entry) (w : IsIndex ngx index)
      (new : has k (to_list index) ≡ false) where
    lookup_none : lookup_entry ngx index k ≡ none
    lookup_none = go (lookup_entry ngx index k) (lookup_entry-Found ngx index k w)
      where
        go : (o : Option Entry) → Found ngx index k o → o ≡ none
        go none f = refl
        go (some e) (present _ h _ _) = absurd (false-ne-true (sym new ∙ h))

    apart :
        Apart
          (λ e. e.node_key)
          (λ e. e.text)
          ngx.memn2cmp
          ngx.memn2cmp_total
          (new_entry ngx k)
          (to_list index)
    unfolding lookup_entry
    apart =
        lookup_generic-Apart (λ e. e.node_key) (λ e. e.text) ngx.memn2cmp ngx.memn2cmp_total index
          (new_entry ngx k) w.sorted lookup_none

    splits :
        Splits
          (λ e. e.node_key)
          (λ e. e.text)
          ngx.memn2cmp
          ngx.memn2cmp_total
          (to_list index)
          (to_list (insert_entry ngx index k))
          (new_entry ngx k)
    unfolding insert_entry
    splits = rw (ngx.rebalance_keeps Entry _) (
        insert_generic-Splits (λ e. e.node_key) (λ e. e.text) ngx.memn2cmp ngx.memn2cmp_total index
          (new_entry ngx k) w.sorted apart)

    pub insert_entry-IsIndex : IsIndex ngx (insert_entry ngx index k)
    insert_entry-IsIndex = record {
      sorted =
          unfold insert_entry in
          (rw (ngx.rebalance_keeps Entry _) (
            insert_generic-Sorted (λ e. e.node_key) (λ e. e.text) ngx.memn2cmp ngx.memn2cmp_total
              index (new_entry ngx k) w.sorted apart));
      hashed = rw splits.now (hashed splits.low splits.high (rw splits.was at w.hashed));
    }
      where
        hashed :
            (low high : List Entry)
            → Hashed ngx (low ++ high)
            → Hashed ngx (low ++ new_entry ngx k ∷ high)
        hashed [] high h = (refl, h)
        hashed (x ∷ low) high (h, hs) = (h, hashed low high hs)

    -- A new entry has no file, and changes no other queue.
    pub queue_of-insert_entry :
        (j : Bytes) → queue_of j (to_list (insert_entry ngx index k)) ≡ queue_of j (to_list index)
    queue_of-insert_entry j =
        rw (splits.now, splits.was, queue_of-append, queue_of-append)
          (elim (Bool-cases (k ==ᵇ j)) [
            | inl same ↦ ground (
              arith,
              same,
              absent same,
              has-append j splits.low splits.high,
              queue_of_missing j splits.high,
            )
            | inr other ↦ rw other
          ])
      where
        absent : (k ==ᵇ j) ≡ true → has j (splits.low ++ splits.high) ≡ false
        absent same = rw (← splits.was, ← ==ᵇ_sound k j same) new

    pub has-insert_entry :
        (j : Bytes)
        → has j (to_list (insert_entry ngx index k))
          ≡ (if k ==ᵇ j then true else has j (to_list index))
    has-insert_entry j = rw (splits.now, splits.was, has-append, has-append) (ground arith)

  queue_of-remove_first :
      (k j : Bytes) (es : List Entry)
      → Unique ngx es
      → queue_of k es ≡ []
      → queue_of j (remove_first (λ e. e.text ==ᵇ k) es) ≡ queue_of j es
  queue_of-remove_first k j [] u h = refl
  queue_of-remove_first k j (e ∷ es) (u, us) h = elim (Bool-cases (e.text ==ᵇ k)) [
    | inr other ↦ ground (arith, other, queue_of-remove_first k j es us)
    | inl same ↦ elim (Bool-cases (e.text ==ᵇ j)) [
      | inr other ↦ ground (arith, same, other)
      | inl hit ↦ ground (
        arith,
        same,
        hit,
        queue_of_missing j es
            (subst (λ t. has t es ≡ false) (==ᵇ_sound e.text j hit) (Lacks-has ngx e.text es u)),
      )
    ]
  ]

  -- Freeing an empty entry changes no queue.
  pub queue_of-free_empty_entry :
      (k j : Bytes) (index : Tree Entry)
      → IsIndex ngx index
      → queue_of j (to_list (free_empty_entry ngx index k)) ≡ queue_of j (to_list index)
  unfolding free_empty_entry
  queue_of-free_empty_entry k j index w =
      elim (Bool-cases (is_empty (queue_of k (to_list index)))) [
        | inr h ↦ rw h
        | inl h ↦
            rw (h, ngx.rbtree_delete_lem Entry (λ e. e.text ==ᵇ k) index)
              (queue_of-remove_first k j (to_list index)
                (Sorted-Unique ngx (to_list index) w.sorted w.hashed)
                (is_empty-nil (queue_of k (to_list index)) h))
      ]

  pub push_file-IsIndex :
      (index : Tree Entry) (k path : Bytes)
      → IsIndex ngx index
      → IsIndex ngx (push_file ngx index k path)
  unfolding push_file
  push_file-IsIndex index k path w = write_entry-IsIndex k (λ q. q ++ path ∷ []) index w

  pub unlink_file-IsIndex :
      (index : Tree Entry) (k path : Bytes)
      → IsIndex ngx index
      → IsIndex ngx (unlink_file ngx index k path)
  unfolding unlink_file
  unlink_file-IsIndex index k path w =
      write_entry-IsIndex k (remove_first (λ p. p ==ᵇ path)) index w

  -- A file joins the tail of one queue.
  pub queue_of-push_file :
      (index : Tree Entry) (k path j : Bytes)
      → has k (to_list index) ≡ true
      → queue_of j (to_list (push_file ngx index k path))
        ≡ (if j ==ᵇ k then queue_of j (to_list index) ++ path ∷ [] else queue_of j (to_list index))
  unfolding push_file
  queue_of-push_file index k path j h =
      rw (to_list-write_entry k (λ q. q ++ path ∷ []) index) (elim (Bool-cases (j ==ᵇ k)) [
        | inl same ↦ ground (
          arith,
          same,
          queue_of-map k (λ q. q ++ path ∷ []) j (to_list index),
          subst (λ t. has t (to_list index) ≡ true) (sym (==ᵇ_sound j k same)) h,
        )
        | inr other ↦ ground (
          arith,
          other,
          queue_of-map k (λ q. q ++ path ∷ []) j (to_list index),
          queue_of_missing j (to_list index),
        )
      ])

  pub queue_of-unlink_file :
      (index : Tree Entry) (k path j : Bytes)
      → queue_of j (to_list (unlink_file ngx index k path)) ≡ (
          if j ==ᵇ k
          then remove_first (λ p. p ==ᵇ path) (queue_of j (to_list index))
          else queue_of j (to_list index))
  unfolding unlink_file
  queue_of-unlink_file index k path j =
      rw (to_list-write_entry k (remove_first (λ p. p ==ᵇ path)) index) (
        ground (
          arith,
          queue_of-map k (remove_first (λ p. p ==ᵇ path)) j (to_list index),
          queue_of_missing j (to_list index),
        ))
