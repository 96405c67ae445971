-- ===== src/Zone/Linking.antt =====
-- Linking a new file, the last of its zone, to its key entry and its tag entries
-- (`link_exact_key_locked` and `link_tags_locked` in src/ngx_cache_pilot_index_store.c).
use ngx_cache_pilot.Base.{
  Bytes, Bool, true, false, ◌≡◌, refl, sym, ap, ◌∙◌, ◌==ᵇ◌, ==ᵇ_refl, Option, none, some, List, [],
  ◌∷◌, ◌++◌, if◌then◌else◌, subst, inl, inr, Bool-cases, true-ne-false, append_assoc, append-nil,
  length, ◌+◌,
}
use ngx_cache_pilot.Nginx.{Nginx}
use ngx_cache_pilot.Tree.{to_list}
use ngx_cache_pilot.Index.{Entry, push_file, insert_entry, lookup_entry}
use ngx_cache_pilot.Index.Queues.{has, Found, missing, present, lookup_entry-Found}
use ngx_cache_pilot.Index.Changes.{
  push_file-IsIndex, queue_of-push_file, insert_entry-IsIndex, queue_of-insert_entry,
  has-insert_entry,
}
use ngx_cache_pilot.Zone.{
  File, Zone, Pool, write_file, get_key_entry_locked, get_tag_entry_locked, link_exact_key_locked,
  link_tags_locked, alloc_locked,
}
use ngx_cache_pilot.Zone.Links.{
  has_file, entry_links, key_links, tag_links, linked, linked-write_file, linked-push,
  has_file-write_file, UniquePaths-write_file, write_file-last,
}
use ngx_cache_pilot.Zone.Invariant.{IsZone}

-- The entry that a file with this key is linked to.
abbrev pub own_entry : Bytes → Option Bytes
own_entry [] = none
own_entry (c ∷ key) = some (c ∷ key)

module _ (ngx : Nginx) where
  -- The zone is well formed, and `f` is its last file, behind the files `fs`.
  pub record Linking (fs : List File) (f : File) (z : Zone) : Type 0 where
    pub zone : IsZone ngx z
    pub at_end : z.files ≡ fs ++ f ∷ []
    pub apart : has_file f.path fs ≡ false

  record HasKey (z : Zone) (key : Bytes) (r : Pool ngx × Zone × Bool) : Type 0 where
    zone : IsZone ngx r.1
    files : r.1.files ≡ z.files
    entry : r.2 ≡ true → has key (to_list r.1.key_index) ≡ true

  get_key_entry_locked-HasKey :
      (pool : Pool ngx) (z : Zone) (key : Bytes)
      → IsZone ngx z
      → HasKey z key (get_key_entry_locked ngx pool z key)
  unfolding get_key_entry_locked
  get_key_entry_locked-HasKey pool z key v =
      go (lookup_entry ngx z.key_index key) (lookup_entry-Found ngx z.key_index key v.keys) refl
    where
      inserted :
          has key (to_list z.key_index) ≡ false
          → IsZone ngx (record z { key_index = insert_entry ngx z.key_index key })
      inserted new = record {
        keys = insert_entry-IsIndex ngx key z.key_index v.keys new;
        tags = v.tags;
        paths = v.paths;
        unique = v.unique;
        agree = v.agree;
        key_queues = λ t. queue_of-insert_entry ngx key z.key_index v.keys new t ∙ v.key_queues t;
        tag_queues = v.tag_queues;
      }

      go :
          (o : Option Entry)
          → Found ngx z.key_index key o
          → lookup_entry ngx z.key_index key ≡ o
          → HasKey z key (get_key_entry_locked ngx pool z key)
      go (some e) (present _ h _ _) q =
          rw (q, get_key_entry_locked) (record { zone = v; files = refl; entry = λ _. h })
      go none (missing new) q =
          elim (Bool-cases (alloc_locked ngx pool (ngx.sizeof_entry + length key)).1) [
            | inl granted ↦
                rw (q, get_key_entry_locked, granted)
                  (record {
                    zone = inserted new;
                    files = refl;
                    entry = λ _.
                        has-insert_entry ngx key z.key_index v.keys new key
                        ∙ rw (==ᵇ_refl key) refl;
                  })
            | inr refused ↦
                rw (q, get_key_entry_locked, refused)
                  (record { zone = v; files = refl; entry = λ e. absurd (true-ne-false (sym e)) })
          ]

  link_key :
      (k : Bytes) (fs : List File) (f : File) (z z' : Zone)
      → Linking fs f z
      → f.key_entry ≡ none
      → IsZone ngx z'
      → z'.files ≡ z.files
      → has k (to_list z'.key_index) ≡ true
      → Linking fs
          (record f { key_entry = some k })
          (record z' {
            files = write_file f.path (λ x. record x { key_entry = some k }) z'.files;
            key_index = push_file ngx z'.key_index k f.path;
          })
  link_key k fs f z z' l e v same entry = record {
    zone = record {
      keys = push_file-IsIndex ngx z'.key_index k f.path v.keys;
      tags = v.tags;
      paths = v.paths;
      unique = UniquePaths-write_file f.path put z'.files (λ x. refl) v.unique;
      agree = λ q. v.agree q ∙ sym (has_file-write_file f.path put q z'.files (λ x. refl));
      key_queues = λ t.
          queue_of-push_file ngx z'.key_index k f.path t entry
          ∙ ap (λ q. if t ==ᵇ k then q ++ f.path ∷ [] else q)
              (v.key_queues t ∙ ap (linked key_links t) (same ∙ l.at_end))
          ∙ sym (
              ap (linked key_links t) written
              ∙ linked-push key_links t k put fs f refl
                  (sym (ap (λ o. entry_links o ++ k ∷ []) e)));
      tag_queues = λ t.
          v.tag_queues t
          ∙ sym (linked-write_file tag_links t f.path put z'.files (λ x. refl) (λ x. refl));
    };
    at_end = written;
    apart = l.apart;
  }
    where
      put : File → File
      put x = record x { key_entry = some k }

      written : write_file f.path put z'.files ≡ fs ++ put f ∷ []
      written = ap (write_file f.path put) (same ∙ l.at_end) ∙ write_file-last put fs f l.apart

  -- The last file is linked to its key's entry, or stays as it was.
  pub link_exact_key_locked-Linking :
      (pool : Pool ngx) (key : Bytes) (fs : List File) (f : File) (z : Zone)
      → Linking fs f z
      → f.key_entry ≡ none
      → let r = link_exact_key_locked ngx pool z f.path key in
        (r.2 ≡ true → Linking fs (record f { key_entry = own_entry key }) r.1)
        × (r.2 ≡ false → Linking fs f r.1)
  unfolding link_exact_key_locked
  link_exact_key_locked-Linking pool [] fs f z l e =
      ((λ _. ap_Linking e l), λ q. absurd (true-ne-false q))
    where
      ap_Linking :
          f.key_entry ≡ none → Linking fs f z → Linking fs (record f { key_entry = none }) z
      ap_Linking e l = subst (λ o. Linking fs (record f { key_entry = o }) z) e l
  link_exact_key_locked-Linking pool (c ∷ key) fs f z l e =
      elim (Bool-cases (get_key_entry_locked ngx pool z (c ∷ key)).2) [
        | inl found ↦
            rw (found, link_exact_key_locked)
              (
                (λ _. link_key (c ∷ key) fs f z _ l e got.zone got.files (got.entry found)),
                λ q. absurd (true-ne-false q),
              )
        | inr failed ↦
            rw (failed, link_exact_key_locked)
              (
                (λ q. absurd (true-ne-false (sym q))),
                λ _. record { zone = got.zone; at_end = got.files ∙ l.at_end; apart = l.apart },
              )
      ]
    where
      got : HasKey z (c ∷ key) (get_key_entry_locked ngx pool z (c ∷ key))
      got = get_key_entry_locked-HasKey pool z (c ∷ key) l.zone

  record HasTag (z : Zone) (tag : Bytes) (r : Pool ngx × Zone × Bool) : Type 0 where
    zone : IsZone ngx r.1
    files : r.1.files ≡ z.files
    entry : r.2 ≡ true → has tag (to_list r.1.tag_index) ≡ true

  get_tag_entry_locked-HasTag :
      (pool : Pool ngx) (z : Zone) (tag : Bytes)
      → IsZone ngx z
      → HasTag z tag (get_tag_entry_locked ngx pool z tag)
  unfolding get_tag_entry_locked
  get_tag_entry_locked-HasTag pool z tag v =
      go (lookup_entry ngx z.tag_index tag) (lookup_entry-Found ngx z.tag_index tag v.tags) refl
    where
      inserted :
          has tag (to_list z.tag_index) ≡ false
          → IsZone ngx (record z { tag_index = insert_entry ngx z.tag_index tag })
      inserted new = record {
        keys = v.keys;
        tags = insert_entry-IsIndex ngx tag z.tag_index v.tags new;
        paths = v.paths;
        unique = v.unique;
        agree = v.agree;
        key_queues = v.key_queues;
        tag_queues = λ t. queue_of-insert_entry ngx tag z.tag_index v.tags new t ∙ v.tag_queues t;
      }

      go :
          (o : Option Entry)
          → Found ngx z.tag_index tag o
          → lookup_entry ngx z.tag_index tag ≡ o
          → HasTag z tag (get_tag_entry_locked ngx pool z tag)
      go (some e) (present _ h _ _) q =
          rw (q, get_tag_entry_locked) (record { zone = v; files = refl; entry = λ _. h })
      go none (missing new) q =
          elim (Bool-cases (alloc_locked ngx pool (ngx.sizeof_entry + length tag)).1) [
            | inl granted ↦
                rw (q, get_tag_entry_locked, granted)
                  (record {
                    zone = inserted new;
                    files = refl;
                    entry = λ _.
                        has-insert_entry ngx tag z.tag_index v.tags new tag
                        ∙ rw (==ᵇ_refl tag) refl;
                  })
            | inr refused ↦
                rw (q, get_tag_entry_locked, refused)
                  (record { zone = v; files = refl; entry = λ e. absurd (true-ne-false (sym e)) })
          ]

  link_tag :
      (k : Bytes) (fs : List File) (f : File) (z z' : Zone)
      → Linking fs f z
      → IsZone ngx z'
      → z'.files ≡ z.files
      → has k (to_list z'.tag_index) ≡ true
      → Linking fs
          (record f { tag_members = f.tag_members ++ k ∷ [] })
          (record z' {
            files =
                write_file f.path
                  (λ x. record x { tag_members = x.tag_members ++ k ∷ [] })
                  z'.files;
            tag_index = push_file ngx z'.tag_index k f.path;
          })
  link_tag k fs f z z' l v same entry = record {
    zone = record {
      keys = v.keys;
      tags = push_file-IsIndex ngx z'.tag_index k f.path v.tags;
      paths = v.paths;
      unique = UniquePaths-write_file f.path put z'.files (λ x. refl) v.unique;
      agree = λ q. v.agree q ∙ sym (has_file-write_file f.path put q z'.files (λ x. refl));
      key_queues = λ t.
          v.key_queues t
          ∙ sym (linked-write_file key_links t f.path put z'.files (λ x. refl) (λ x. refl));
      tag_queues = λ t.
          queue_of-push_file ngx z'.tag_index k f.path t entry
          ∙ ap (λ q. if t ==ᵇ k then q ++ f.path ∷ [] else q)
              (v.tag_queues t ∙ ap (linked tag_links t) (same ∙ l.at_end))
          ∙ sym (ap (linked tag_links t) written ∙ linked-push tag_links t k put fs f refl refl);
    };
    at_end = written;
    apart = l.apart;
  }
    where
      put : File → File
      put x = record x { tag_members = x.tag_members ++ k ∷ [] }

      written : write_file f.path put z'.files ≡ fs ++ put f ∷ []
      written = ap (write_file f.path put) (same ∙ l.at_end) ∙ write_file-last put fs f l.apart

  -- How far the tags of the last file got: to all of them if the result is `true`.
  pub record Tagged (fs : List File) (f : File) (tags : List Bytes) (r : Pool ngx × Zone × Bool)
      : Type 0 where
    pub done : List Bytes
    pub linking : Linking fs (record f { tag_members = done }) r.1
    pub all : r.2 ≡ true → done ≡ f.tag_members ++ tags

  pub link_tags_locked-Tagged :
      (tags : List Bytes) (pool : Pool ngx) (fs : List File) (f : File) (z : Zone)
      → Linking fs f z
      → Tagged fs f tags (link_tags_locked ngx pool z f.path tags)
  unfolding link_tags_locked
  link_tags_locked-Tagged [] pool fs f z l = record {
    done = f.tag_members;
    linking = l;
    all = λ _. sym (append-nil f.tag_members);
  }
  link_tags_locked-Tagged (tag ∷ tags) pool fs f z l =
      elim (Bool-cases (get_tag_entry_locked ngx pool z tag).2) [
        | inr failed ↦
            rw (failed, link_tags_locked) (stopped (get_tag_entry_locked ngx pool z tag).0)
        | inl found ↦
            elim (Bool-cases
              (alloc_locked ngx (get_tag_entry_locked ngx pool z tag).0 ngx.sizeof_member).1) [
                | inr refused ↦
                    rw (found, refused, link_tags_locked)
                      (stopped
                        (alloc_locked ngx (get_tag_entry_locked ngx pool z tag).0
                          ngx.sizeof_member).0)
                | inl granted ↦
                    rw (found, granted, link_tags_locked)
                      (more (
                        link_tags_locked-Tagged tags _ fs
                          (record f { tag_members = f.tag_members ++ tag ∷ [] }) _
                          (link_tag tag fs f z _ l got.zone got.files (got.entry found))))
              ]
      ]
    where
      got : HasTag z tag (get_tag_entry_locked ngx pool z tag)
      got = get_tag_entry_locked-HasTag pool z tag l.zone

      stopped :
          (p : Pool ngx)
          → Tagged fs f (tag ∷ tags) (p, (get_tag_entry_locked ngx pool z tag).1, false)
      stopped p = record {
        done = f.tag_members;
        linking = record { zone = got.zone; at_end = got.files ∙ l.at_end; apart = l.apart };
        all = λ e. absurd (true-ne-false (sym e));
      }

      more :
          {r : Pool ngx × Zone × Bool}
          → Tagged fs (record f { tag_members = f.tag_members ++ tag ∷ [] }) tags r
          → Tagged fs f (tag ∷ tags) r
      more t = record {
        done = t.done;
        linking = t.linking;
        all = λ e. t.all e ∙ append_assoc f.tag_members (tag ∷ []) tags;
      }
