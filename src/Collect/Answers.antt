-- ===== src/Collect/Answers.antt =====
-- Each collection answers exactly the question that the files of the zone answer by themselves.
use ngx_cache_pilot.Base.{
  ℕ, Bytes, Bool, true, false, ◌||◌, ◌&&◌, ◌≡◌, refl, sym, ap, ◌∙◌, ◌==ᵇ◌, ==ᵇ_comm, Option, none,
  some, some-inj, List, [], ◌∷◌, if◌then◌else◌, NulFree, All, All-append, arith, Bool-cases,
  Option-cases, none-ne-some, ◌⊎◌, inl, inr, subst, strncmp_eq-begins, begins,
}
use ngx_cache_pilot.Nginx.{Nginx}
use ngx_cache_pilot.Tree.{Tree, to_list}
use ngx_cache_pilot.Index.{Entry, lookup_entry, queue_of}
use ngx_cache_pilot.Index.Queues.{Found, missing, present, lookup_entry-Found, queue_of_missing}
use ngx_cache_pilot.Zone.{File, Zone}
use ngx_cache_pilot.Zone.Links.{has_path, has_path-append, copies, key_links, tag_links, linked}
use ngx_cache_pilot.Zone.Invariant.{IsZone}
use ngx_cache_pilot.Collect.{
  push_path_unique, push_queue, collect_tags, collect_key, collect_prefix,
}
use ngx_cache_pilot.Collect.Unique.{
  Collected, Distinct, push_path_unique-Collected, push_queue-Collected,
}

-- The paths of the files are NUL-free.
abbrev pub CleanPaths : List File → Type 0
CleanPaths = All (λ f. NulFree f.path)

-- There is a file with the path that passes the test.
abbrev pub some_file : (File → Bool) → Bytes → List File → Bool
some_file test p [] = false
some_file test p (f ∷ fs) = if (f.path ==ᵇ p) && test f then true else some_file test p fs

abbrev pub shares : List Bytes → List Bytes → Bool
shares [] us = false
shares (t ∷ ts) us = has_path t us || shares ts us

module _ (links : File → List Bytes) where
  has_path-copies :
      (t p q : Bytes) (us : List Bytes) → has_path p (copies t us q) ≡ ((q ==ᵇ p) && has_path t us)
  has_path-copies t p q [] = ground arith
  has_path-copies t p q (u ∷ us) = ground (arith, ==ᵇ_comm t u, has_path-copies t p q us)

  -- A path stands in the queue of an entry exactly if a file with that path is linked to it.
  has_path-linked :
      (t p : Bytes) (fs : List File)
      → has_path p (linked links t fs) ≡ some_file (λ f. has_path t (links f)) p fs
  has_path-linked t p [] = refl
  has_path-linked t p (f ∷ fs) =
      rw (has_path-append, has_path-copies) (ground (arith, has_path-linked t p fs))

  linked-NulFree : (t : Bytes) (fs : List File) → CleanPaths fs → All NulFree (linked links t fs)
  linked-NulFree t [] c = tt
  linked-NulFree t (f ∷ fs) (c, cs) =
      All-append NulFree (copies t (links f) f.path) (linked links t fs) (of_copies (links f))
        (linked-NulFree t fs cs)
    where
      of_copies : (us : List Bytes) → All NulFree (copies t us f.path)
      of_copies [] = tt
      of_copies (u ∷ us) = elim (Bool-cases (t ==ᵇ u)) [
        | inl same ↦ rw same (c, of_copies us)
        | inr other ↦ rw other (of_copies us)
      ]

some_file-or :
    (a b : File → Bool) (p : Bytes) (fs : List File)
    → some_file (λ f. a f || b f) p fs ≡ (if some_file a p fs then true else some_file b p fs)
some_file-or a b p [] = refl
some_file-or a b p (f ∷ fs) = ground (arith, some_file-or a b p fs)

-- A lookup finds an entry with the linked paths, or there is none and no path is linked.
pub lookup_links :
    (ngx : Nginx) (index : Tree Entry) (k : Bytes) (paths : List Bytes) (o : Option Entry)
    → Found ngx index k o
    → queue_of k (to_list index) ≡ paths
    → ((o ≡ none) × (paths ≡ [])) ⊎ ((entry : Entry) × (o ≡ some entry) × (entry.files ≡ paths))
lookup_links ngx index k paths none (missing h) q =
    inl (refl, sym q ∙ queue_of_missing k (to_list index) h)
lookup_links ngx index k paths (some e) (present _ h t files) q = inr (e, refl, files ∙ q)

module _ (ngx : Nginx) (zone : Zone) (v : IsZone ngx zone) (clean : CleanPaths zone.files) where
  -- The paths collected by tags are those of the files that have one of the tags, each once.
  pub collect_tags-Collected :
      (tags : List Bytes) (room : ℕ) (paths : List Bytes) (r : ℕ) (out : List Bytes)
      → All NulFree paths
      → Distinct paths
      → collect_tags ngx zone room paths tags ≡ some (r, out)
      → Collected paths (λ p. some_file (λ f. shares tags f.tag_members) p zone.files) out
  unfolding collect_tags
  collect_tags-Collected [] room paths r out c d e =
      subst (Collected paths (λ p. some_file (λ f. false) p zone.files))
        (ap (λ t. t.1) (some-inj e))
        (record { answer = λ p. ground (arith, nothing p zone.files); clean = c; distinct = d })
    where
      nothing : (p : Bytes) (fs : List File) → some_file (λ f. false) p fs ≡ false
      nothing p [] = refl
      nothing p (f ∷ fs) = ground (arith, nothing p fs)
  collect_tags-Collected (tag ∷ tags) room paths r out c d e =
      elim (lookup_links ngx zone.tag_index tag (linked tag_links tag zone.files)
        (lookup_entry ngx zone.tag_index tag) (lookup_entry-Found ngx zone.tag_index tag v.tags)
        (v.tag_queues tag)) [
          | inl (gone, empty) ↦
              let rest =
                collect_tags-Collected tags room paths r out c d (rw (gone, collect_tags) at e) in
              record {
                answer = λ p.
                    rest.answer p
                    ∙ ap (λ b. if has_path p paths then true else b)
                        (sym (
                          some_file-or (λ f. has_path tag f.tag_members)
                            (λ f. shares tags f.tag_members) p zone.files
                          ∙ ap
                              (λ b.
                                if b
                                then true
                                else some_file (λ f. shares tags f.tag_members) p zone.files)
                              (sym (has_path-linked tag_links tag p zone.files)
                                ∙ ap (has_path p) empty)));
                clean = rest.clean;
                distinct = rest.distinct;
              }
          | inr (entry, there, queue) ↦ elim (Option-cases (push_queue room paths entry.files)) [
            | inl failed ↦
                absurd (none-ne-some {a = (r, out)} (rw (there, collect_tags, failed) at e))
            | inr ((room', paths'), ok) ↦
                let one =
                  push_queue-Collected entry.files room paths room' paths' c
                    (rw queue (linked-NulFree tag_links tag zone.files clean)) d ok in
                let rest =
                  collect_tags-Collected tags room' paths' r out one.clean one.distinct
                    (rw (there, collect_tags, ok) at e) in
                record {
                  answer = λ p.
                      rest.answer p
                      ∙ ground (
                        arith,
                        one.answer p,
                        ap (has_path p) queue,
                        has_path-linked tag_links tag p zone.files,
                        some_file-or (λ f. has_path tag f.tag_members)
                            (λ f. shares tags f.tag_members) p zone.files,
                      );
                  clean = rest.clean;
                  distinct = rest.distinct;
                }
          ]
        ]

  -- The paths collected by a key are those of the files linked to it, each once.
  pub collect_key-Collected :
      (key : Bytes) (room : ℕ) (paths : List Bytes) (r : ℕ) (out : List Bytes)
      → All NulFree paths
      → Distinct paths
      → collect_key ngx zone room paths key ≡ some (r, out)
      → Collected paths (λ p. some_file (λ f. has_path key (key_links f)) p zone.files) out
  unfolding collect_key
  collect_key-Collected key room paths r out c d e =
      elim (lookup_links ngx zone.key_index key (linked key_links key zone.files)
        (lookup_entry ngx zone.key_index key) (lookup_entry-Found ngx zone.key_index key v.keys)
        (v.key_queues key)) [
          | inl (gone, empty) ↦
              subst
                (Collected paths (λ p. some_file (λ f. has_path key (key_links f)) p zone.files))
                (ap (λ t. t.1) (some-inj (rw (gone, collect_key) at e)))
                (record {
                  answer = λ p.
                      ground
                        (arith, has_path-linked key_links key p zone.files, ap (has_path p) empty);
                  clean = c;
                  distinct = d;
                })
          | inr (entry, there, queue) ↦
              let one =
                push_queue-Collected entry.files room paths r out c
                  (rw queue (linked-NulFree key_links key zone.files clean)) d
                  (rw (there, collect_key) at e) in
              record {
                answer = λ p.
                    one.answer p
                    ∙ ground
                        (arith, ap (has_path p) queue, has_path-linked key_links key p zone.files);
                clean = one.clean;
                distinct = one.distinct;
              }
        ]

-- The paths collected by a prefix are those of the files whose key it begins, each once.
pub collect_prefix-Collected :
    (prefix : Bytes) (fs : List File) (room : ℕ) (paths : List Bytes) (r : ℕ) (out : List Bytes)
    → NulFree prefix
    → CleanPaths fs
    → All NulFree paths
    → Distinct paths
    → collect_prefix room paths prefix fs ≡ some (r, out)
    → Collected paths (λ p. some_file (λ f. begins prefix f.key) p fs) out
unfolding collect_prefix
collect_prefix-Collected prefix [] room paths r out n k c d e =
    subst (Collected paths (λ p. false)) (ap (λ t. t.1) (some-inj e))
      (record { answer = λ p. ground arith; clean = c; distinct = d })
collect_prefix-Collected prefix (f ∷ fs) room paths r out n (k, ks) c d e =
    elim (Bool-cases (begins prefix f.key)) [
      | inl hit ↦ elim (Option-cases (push_path_unique room paths f.path)) [
        | inl failed ↦ absurd (
            none-ne-some {a = (r, out)}
              (sym (ground (arith, failed, hit, strncmp_eq-begins prefix f.key n)) ∙ e))
        | inr ((room', paths'), ok) ↦
            let one = push_path_unique-Collected room paths f.path room' paths' c k d ok in
            let rest =
              collect_prefix-Collected prefix fs room' paths' r out n ks one.clean one.distinct
                (ground (arith, ok, hit, strncmp_eq-begins prefix f.key n, e)) in
            record {
              answer = λ p. rest.answer p ∙ ground (arith, one.answer p, hit);
              clean = rest.clean;
              distinct = rest.distinct;
            }
      ]
      | inr miss ↦
          let rest =
            collect_prefix-Collected prefix fs room paths r out n ks c d
              (ground (arith, miss, strncmp_eq-begins prefix f.key n, e)) in
          record {
            answer = λ p. rest.answer p ∙ ground (arith, miss);
            clean = rest.clean;
            distinct = rest.distinct;
          }
    ]
