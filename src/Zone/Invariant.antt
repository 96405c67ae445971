-- ===== src/Zone/Invariant.antt =====
-- What holds of a zone between any two steps under the lock, and the removal of a file, which keeps
-- it (`remove_file_locked` in src/ngx_cache_pilot_index_store.c).
use ngx_cache_pilot.Base.{
  Bytes, false, ◌≡◌, refl, sym, ap, ◌∙◌, ◌==ᵇ◌, Option, none, some, List, [], ◌∷◌, if◌then◌else◌,
  remove_first,
}
use ngx_cache_pilot.Nginx.{Nginx}
use ngx_cache_pilot.Tree.{to_list}
use ngx_cache_pilot.Index.{queue_of, unlink_file, free_empty_entry}
use ngx_cache_pilot.Index.Queues.{IsIndex}
use ngx_cache_pilot.Index.Changes.{
  unlink_file-IsIndex, free_empty_entry-IsIndex, queue_of-unlink_file, queue_of-free_empty_entry,
}
use ngx_cache_pilot.Zone.{
  File, Zone, Pool, PathNode, file_of, write_file, unlink_key, unlink_members, remove_file_locked,
}
use ngx_cache_pilot.Zone.Links.{
  has_file, UniquePaths, entry_links, key_links, tag_links, linked, without, linked-unlink,
  linked-write_file, linked-without, has_file-write_file, UniquePaths-write_file,
  without-write_file, file_of-write_file,
}
use ngx_cache_pilot.Zone.Paths.{
  IsPathIndex, has_node, rbtree_delete-IsPathIndex, has_node-rbtree_delete, has_file-without,
  UniquePaths-without,
}

module _ (ngx : Nginx) where
  -- The three indexes are well formed and say exactly what the files say: a path has a node if it
  -- has a file, and the queue of an entry holds the paths of the files linked to it, in their order.
  pub record IsZone (z : Zone) : Type 0 where
    pub keys : IsIndex ngx z.key_index
    pub tags : IsIndex ngx z.tag_index
    pub paths : IsPathIndex ngx z.path_index
    pub unique : UniquePaths z.files
    pub agree : (q : Bytes) → has_node q (to_list z.path_index) ≡ has_file q z.files
    pub key_queues : (t : Bytes) → queue_of t (to_list z.key_index) ≡ linked key_links t z.files
    pub tag_queues : (t : Bytes) → queue_of t (to_list z.tag_index) ≡ linked tag_links t z.files

  -- A zone on the way of a removal: the file `f` as it is now, and the others as they were.
  record Removing (f : File) (old : List File) (z : Zone) : Type 0 where
    zone : IsZone z
    here : file_of f.path z.files ≡ some f
    rest : without f.path z.files ≡ without f.path old

  module _ (z : Zone) (v : IsZone z) (f : File) (here : file_of f.path z.files ≡ some f) where
    unlink_key_zone :
        (k : Bytes)
        → f.key_entry ≡ some k
        → Removing
            (record f { key_entry = none })
            z.files
            (record z {
              files = write_file f.path (λ x. record x { key_entry = none }) z.files;
              key_index = free_empty_entry ngx (unlink_file ngx z.key_index k f.path) k;
            })
    unlink_key_zone k e = record {
      zone = record {
        keys =
            free_empty_entry-IsIndex ngx k (unlink_file ngx z.key_index k f.path)
              (unlink_file-IsIndex ngx z.key_index k f.path v.keys);
        tags = v.tags;
        paths = v.paths;
        unique = UniquePaths-write_file f.path clear z.files (λ x. refl) v.unique;
        agree = λ q. v.agree q ∙ sym (has_file-write_file f.path clear q z.files (λ x. refl));
        key_queues = λ t.
            queue_of-free_empty_entry ngx k t (unlink_file ngx z.key_index k f.path)
              (unlink_file-IsIndex ngx z.key_index k f.path v.keys)
            ∙ queue_of-unlink_file ngx z.key_index k f.path t
            ∙ ap (λ q. if t ==ᵇ k then remove_first (λ p. p ==ᵇ f.path) q else q) (v.key_queues t)
            ∙ sym (
                linked-unlink key_links t f.path k [] clear z.files f v.unique here own (λ x. refl)
                  refl);
        tag_queues = λ t.
            v.tag_queues t
            ∙ sym (linked-write_file tag_links t f.path clear z.files (λ x. refl) (λ x. refl));
      };
      here = file_of-write_file f.path clear z.files f (λ x. refl) here;
      rest = without-write_file f.path clear z.files v.unique (λ x. refl);
    }
      where
        clear : File → File
        clear x = record x { key_entry = none }

        own : key_links f ≡ k ∷ []
        own = ap entry_links e

    unlink_tag_zone :
        (tag : Bytes) (tags : List Bytes)
        → f.tag_members ≡ tag ∷ tags
        → Removing
            (record f { tag_members = tags })
            z.files
            (record z {
              files = write_file f.path (λ x. record x { tag_members = tags }) z.files;
              tag_index = free_empty_entry ngx (unlink_file ngx z.tag_index tag f.path) tag;
            })
    unlink_tag_zone tag tags e = record {
      zone = record {
        keys = v.keys;
        tags =
            free_empty_entry-IsIndex ngx tag (unlink_file ngx z.tag_index tag f.path)
              (unlink_file-IsIndex ngx z.tag_index tag f.path v.tags);
        paths = v.paths;
        unique = UniquePaths-write_file f.path drop z.files (λ x. refl) v.unique;
        agree = λ q. v.agree q ∙ sym (has_file-write_file f.path drop q z.files (λ x. refl));
        key_queues = λ t.
            v.key_queues t
            ∙ sym (linked-write_file key_links t f.path drop z.files (λ x. refl) (λ x. refl));
        tag_queues = λ t.
            queue_of-free_empty_entry ngx tag t (unlink_file ngx z.tag_index tag f.path)
              (unlink_file-IsIndex ngx z.tag_index tag f.path v.tags)
            ∙ queue_of-unlink_file ngx z.tag_index tag f.path t
            ∙ ap (λ q. if t ==ᵇ tag then remove_first (λ p. p ==ᵇ f.path) q else q) (v.tag_queues t)
            ∙ sym (
                linked-unlink tag_links t f.path tag tags drop z.files f v.unique here e (λ x. refl)
                  refl);
      };
      here = file_of-write_file f.path drop z.files f (λ x. refl) here;
      rest = without-write_file f.path drop z.files v.unique (λ x. refl);
    }
      where
        drop : File → File
        drop x = record x { tag_members = tags }

    -- Without links the file is taken out of the path index and of the queue of files.
    drop_file-IsZone :
        f.key_entry ≡ none
        → f.tag_members ≡ []
        → IsZone (record z {
          path_index = ngx.rbtree_delete PathNode (λ n. n.path ==ᵇ f.path) z.path_index;
          files = remove_first (λ x. x.path ==ᵇ f.path) z.files;
        })
    drop_file-IsZone e l = record {
      keys = v.keys;
      tags = v.tags;
      paths = rbtree_delete-IsPathIndex ngx f.path z.path_index v.paths;
      unique = UniquePaths-without f.path z.files v.unique;
      agree = λ q.
          has_node-rbtree_delete ngx f.path q z.path_index v.paths
          ∙ ap (λ b. if f.path ==ᵇ q then false else b) (v.agree q)
          ∙ sym (has_file-without f.path q z.files v.unique);
      key_queues = λ t.
          v.key_queues t
          ∙ sym (linked-without key_links t f.path z.files f here (ap entry_links e));
      tag_queues = λ t. v.tag_queues t ∙ sym (linked-without tag_links t f.path z.files f here l);
    }

  unlink_members_zone :
      (tags : List Bytes) (pool : Pool ngx) (z : Zone) (f : File)
      → IsZone z
      → file_of f.path z.files ≡ some f
      → f.tag_members ≡ tags
      → Removing (record f { tag_members = [] }) z.files (unlink_members ngx pool z f.path tags).1
  unfolding unlink_members
  unlink_members_zone [] pool z f v here e = record {
    zone = v;
    here = here ∙ ap (λ l. some (record f { tag_members = l })) e;
    rest = refl;
  }
  unlink_members_zone (tag ∷ tags) pool z f v here e =
      let s = unlink_tag_zone z v f here tag tags e in
      let r = unlink_members_zone tags _ _ (record f { tag_members = tags }) s.zone s.here refl in
      record { zone = r.zone; here = r.here; rest = r.rest ∙ s.rest }

  unlink_key_zone_any :
      (o : Option Bytes) (pool : Pool ngx) (z : Zone) (f : File)
      → IsZone z
      → file_of f.path z.files ≡ some f
      → f.key_entry ≡ o
      → Removing (record f { key_entry = none }) z.files (unlink_key ngx pool z f).1
  unfolding unlink_key
  unlink_key_zone_any none pool z f v here e =
      rw (e, unlink_key)
        (record {
          zone = v;
          here = here ∙ ap (λ l. some (record f { key_entry = l })) e;
          rest = refl;
        })
  unlink_key_zone_any (some k) pool z f v here e =
      rw (e, unlink_key) (unlink_key_zone z v f here k e)

  -- The removal keeps the zone well formed, and takes out that file alone.
  pub remove_file_locked_zone :
      (pool : Pool ngx) (z : Zone) (f : File)
      → IsZone z
      → file_of f.path z.files ≡ some f
      → IsZone (remove_file_locked ngx pool z f).1
        × ((remove_file_locked ngx pool z f).1.files ≡ without f.path z.files)
  unfolding remove_file_locked
  remove_file_locked_zone pool z f v here =
      let a = unlink_key_zone_any f.key_entry pool z f v here refl in
      let b =
        unlink_members_zone f.tag_members _ _ (record f { key_entry = none }) a.zone a.here refl in
      (
        drop_file-IsZone _ b.zone (record f { key_entry = none; tag_members = [] }) b.here refl
            refl,
        b.rest ∙ a.rest,
      )
