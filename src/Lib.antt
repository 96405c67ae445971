-- ===== src/Lib.antt =====
-- ngx_cache_pilot
-- ===============
--
-- The module indexes the files of nginx caches by path, by cache key and by cache tag, in shared
-- memory, so that a purge finds the files to delete. Responses carry their tags in headers, a watch
-- runtime puts each cached file with its tags into the index, and a request purges by tag, by key, by
-- key prefix or a whole cache.
--
-- The index is src/ngx_cache_pilot_index_store.c:
--   Tree       the search trees (shm_insert_generic, shm_lookup_generic);
--   Index      the key index and the tag index, trees of entries with a queue of files each;
--   Zone       one zone with its files and its three indexes (shm_lookup_file,
--              shm_remove_file_locked, shm_link_exact_key_locked, shm_link_tags_locked and what these
--              call);
--   Upsert     what shm_upsert_file_meta and shm_delete_file do to a zone, roll backs included;
--   Collect    the collections of paths by tags, key and key prefix;
--   Store      all zones and the operations that take the lock. Store.Catalogue is the abstract view,
--              for each zone the list of its files' metadata, and Store.Runs the runs of any workers;
--   Token      the split of a header value into tags (extract_tokens, push_unique).
-- The purges are in src/ngx_cache_pilot_module.c, that by tags in src/ngx_cache_pilot_index.c:
--   FileCache  one file of nginx's cache, its node and its copy on disk (soft_path,
--              delete_cache_file, delete_opened_file, by_path);
--   Purge      the purge by tags (ngx_http_cache_index_purge);
--   Request    the notes of a request and the readiness of the key index (key_index_ready,
--              record_purge, by_indexed_path);
--   Exact      the purge of one key (exact_purge, exact_purge_soft);
--   Walk       the purge of a key prefix and of a whole cache (partial, all and the file handlers);
--   Handler    when a request purges, and how it is answered (enabled, ngx_http_cache_pilot_handler).
-- The files get into the index by
--   Indexing   the indexing of one file (parse_file, process_file of the store);
--   Runtime    src/ngx_cache_pilot_index_runtime.c, the zones that a worker knows, the scan of a cache's
--              directory, the bootstrap of the zones and the start of a worker with its timer
--              (lookup_zone_index, scan_recursive, bootstrap_zone, try_bootstrap_zones, init_runtime);
--   TagHeaders the tags in the headers of a request or response (request_headers, response_headers);
--   Filter     the header filter and the log handler, which index a response as it is cached.
-- Of the same files, Registry models the registration of caches (register_cache, headers_equal), Json the
-- escaping of texts, Stats the counters of purged files, Mode the mode of a request and Response the
-- texts of the response. Base holds what all share, Nginx what nginx gives, Os the file system, and
-- Tests a concrete nginx and disk with examples.
--
-- An operation of the store takes the lock first and gives it back last, so that it is one step, and a
-- run of several workers is a sequence of steps. A pointer to an entry is its text, a pointer to a
-- file its path, a pointer to a zone its name, and a pointer to a cache node its key; that each names
-- one thing is part of the invariants. A string is a list of bytes, a time a natural number. Balancing
-- and deletion in the tree, the slab, the checksums, ngx_memn2cmp and ngx_strncasecmp are nginx's,
-- fields of the record Nginx with what the code relies on as laws; the file calls and ngx_walk_tree are
-- fields of the record Os. The request pool is the number of elements that still fit in an array.
-- The build is one on Linux for nginx 1.0.1 or later, without file AIO and without threads.
--
-- Loops run over lists or trees, the scan over the directories as they are found, so that they need no
-- fuel, except the scan of a header value: each of its rounds reads at least one byte, so that fuel for
-- the length of the value is enough.
--
-- Not modelled: log lines; the copies of the tags behind a file's key, which nothing reads; the
-- output of the metrics; the directives of the configuration; the shutdown of a worker; the
-- bodies of responses.
pub mod Base
pub mod Tree
pub mod Nginx
pub mod Index
pub mod Zone
pub mod Upsert
pub mod Collect
pub mod Store
pub mod Purge
pub mod Token
pub mod Json
pub mod Registry
pub mod Stats
pub mod Mode
pub mod Response
pub mod Os
pub mod FileCache
pub mod Request
pub mod Exact
pub mod Walk
pub mod Handler
pub mod Indexing
pub mod TagHeaders
pub mod Filter
pub mod Runtime
pub mod Tests
