-- ===== src/Lib.antt =====
-- hyperdir, a directory namespace on S3 (Cargo.toml, src/), modelled and proved correct in parts.
--
-- A directory is a hyperfile whose B-tree maps the CRC64 of a name to an entry (inode, uuid, name).
-- A change is first committed as a scatter object under the directory's `!/` prefix; readers lay the
-- pending events over the tree, a compactor with a lease folds them into the tree, and a garbage
-- collector reclaims what deletes leave behind. Files carry advisory byte-range locks.
--
--   Lock                the lock table of src/lock.rs: `test`, `set`, `remove_range`, `release_owner`,
--                       `renew`, `purge_expired`, on inclusive `u64` ranges
--   Lock.Codec          `encode` and `decode` of that table
--   Lock.Service        `load_table`, `cas_put`, `fs_getlk`, `fs_setlk`, `fs_unlock_owner`,
--                       `fs_lock_renew`: the optimistic read-modify-write of the `_lock` object
--   Ondisk              src/ondisk.rs, and `DirFileEntry::from_raw` of src/file.rs
--   Probe               `probe_lookup_in`, `probe_upsert`, `probe_delete` of src/file.rs: linear
--                       probing over the B-tree, with backward shift on a delete
--   Directory.Changes   `collect_scatter_changes` of src/file.rs
--   Directory.Entries   `read_entry`, `insert_entry`, `insert_entry_excl`, `remove_entry`,
--                       `rename_within` and the loads of src/file.rs
--   Directory.Listing   `walk_bmap` and `read_dir` of src/file.rs
--   Directory.Compact   `compact` and `compact_inner` of src/file.rs
--   Directory.Resolve   `resolve_fast` of src/file.rs
--   Scatter             `DirScatterInode` and `filter_last_view` of src/lib.rs
--   Bodies              the PreDelete and tombstone bodies of src/lib.rs
--   Lease               the compactor's lease: its body in src/lib.rs, `acquire_compact_lease`,
--                       `try_take_over_compact_lease`, `release_compact_lease` of src/s3.rs
--   Staging             `emit_scatter_event`, `collect_scatter_inodes`, `remove_scatter_inodes` of
--                       src/s3.rs, and `path_encode` of src/lib.rs
--   Staging.Keys        `path_decode` of src/lib.rs
--   Staging.Listing     `list_scatter_with_prefix` and its callers in src/s3.rs
--   Interceptor         the hooks of src/interceptor.rs
--   Fs                  what src/fs.rs takes from hyperfile, S3 and the crates: the record `System`
--   Fs.Remove           `fs_unlink`, `fs_rmdir`, `fs_reclaim` of src/fs.rs
--   Fs.Link             `fs_link` of src/fs.rs
--   Fs.Compaction       `fs_compact` of src/fs.rs: the second phase of a delete
--   Fs.Attributes       `fs_setxattr`, `fs_getxattr`, `fs_listxattr`, `fs_removexattr` of src/fs.rs
--   Fs.Intent           `RenameIntent` and `ReclaimIntent` of src/fs.rs
--   Fs.Move             `emit_rename_intent`, `apply_rename_intent`, `fs_rename_across` of src/fs.rs
--   Fs.Recover          `fs_recover_renames`, `fs_emit_reclaim_intent`, `reclaim_intent_stale` of
--                       src/fs.rs
--   Fs.Orphans          `fs_gc_orphans`, `list_namespace_uuids` of src/fs.rs
--   Fs.Create           `fs_create_default`, `fs_create_file`, the root's two calls of src/fs.rs, and
--                       `do_open_or_create` of src/hyper.rs
--   Gc                  `adjust_nlink`, `current_nlink`, `reclaim_child_prefix`, `fs_gc` of src/fs.rs
--   Layout              the keys of src/layout.rs
--   Object              what aws-sdk-s3's client does: a parameter, with what the code relies on
--   Wire                the text functions of the standard library that the formats use
--   Base                shared names: results and error kinds, texts, lists, 64-bit integers
--
-- Numbers are natural numbers, times are integers with the range of `i64` as a predicate, a name is
-- its bytes, a uuid and a ULID in a key are their texts. Calls on S3, on hyperfile and on btree-ondisk
-- are records of functions over a state; what other clients do between two calls is a function that
-- the definitions take, `others`. A clock and a fresh ULID are arguments. The tree in memory counts
-- for nothing after an error: each operation that writes loads the latest tree first.
--
-- A probe loop from the key `k` takes `u64::MAX - k` more rounds, the number of keys above it; the
-- walk over a tree takes `u64::MAX + 1` rounds; the lock and link-count loops take the retries of
-- the source, 8 and 5, and so do the claim of a rename, 8, and the entry of a hard link, 5; the
-- chunked removal takes as many rounds as there are keys; a decimal number takes twenty digits.
--
-- Not modelled: building hyperfile's handles from a configuration (src/hyper.rs and `do_open` of
-- src/file.rs), which is hyperfile's and btree-ondisk's calls without logic of their own; `stat`,
-- `update_stat` and the conversions to and from `libc::stat`; the entries of src/fs.rs that only tests
-- call, to stop an operation half-way; logging. The recovery of renames and the collection of orphans
-- are taken with no other client at work, on the pages that the listing has when they start.
mod Base
pub mod Lock
pub mod Ondisk
pub mod Probe
pub mod Scatter
pub mod Bodies
pub mod Wire
pub mod Layout
pub mod Lease
pub mod Gc
pub mod Interceptor
pub mod Fs
pub mod Staging
pub mod Directory
pub mod Object
