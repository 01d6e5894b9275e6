-- ===== src/Directory/Compact.antt =====
-- `compact` of src/file.rs: the pending events folded into the latest persisted tree, one flush,
-- then the events that were folded are stripped, all but the tombstones. `others n` is what other
-- clients do to the store between the calls.
pub mod Fold
use hyperdir.Base.{
  ℕ, zero, suc, ◌+◌, Bool, true, false, not, List, [], ◌∷◌, ◌++◌, retain, any, length, map,
  if◌then◌else◌, Text, text_eq, Result, ok, err, ◌>>=◌,
}
use hyperdir.Base.Int.{ℤ}
use hyperdir.Ondisk.{DirFileEntryRaw}
use hyperdir.Probe.{BMap, probe_upsert, probe_delete}
use hyperdir.Directory.{DirStaging, ◌>>>=◌, Dict}
use hyperdir.Directory.Changes.{ScatterChanges, collect_scatter_changes}

pub record CompactStats : Type 0 where
  pub scatters_processed : ℕ
  pub entries_added : ℕ
  pub entries_removed : ℕ
  pub tombstones_kept : ℕ
  pub no_op : Bool
  pub removed_children : List Text
  pub predeleted : Dict (Text × Bool × ℤ)

abbrev pub no_op_stats : CompactStats
no_op_stats = record {
  scatters_processed = 0;
  entries_added = 0;
  entries_removed = 0;
  tombstones_kept = 0;
  no_op = true;
  removed_children = [];
  predeleted = [];
}

abbrev pub default_compact_lease_ttl_ms : ℕ
default_compact_lease_ttl_ms = 60_000

module _ {B I : Type 0} (m : BMap B (DirFileEntryRaw I)) (crc64 : Text → ℕ) where
  -- The loop over `changes.upserts`.
  unfoldable pub fold_upserts : B → Dict (DirFileEntryRaw I) → Result B
  fold_upserts b [] = ok b
  fold_upserts b ((name, entry) ∷ rest) = do
    b' ← probe_upsert m crc64 b name entry
    fold_upserts b' rest

  -- The loops over `changes.deletes` and `changes.predeletes`: the tree, and the bindings whose
  -- name was in it.
  unfoldable pub fold_deletes : {V : Type 0} → B → Dict V → Result (B × Dict V)
  fold_deletes b [] = ok (b, [])
  fold_deletes b ((name, v) ∷ rest) = do
    step ← probe_delete m crc64 b name
    (b', removed) ← fold_deletes step.0 rest
    ok (b', if step.1 then (name, v) ∷ removed else removed)

  -- The three loops.
  unfoldable pub fold_changes :
      B → ScatterChanges I → Result (B × Dict Text × Dict (Text × Bool × ℤ))
  unfolding fold_upserts fold_deletes
  fold_changes b changes = do
    b₁ ← fold_upserts b changes.upserts
    (b₂, removed) ← fold_deletes b₁ changes.deletes
    (b₃, predeleted) ← fold_deletes b₂ changes.predeletes
    ok (b₃, removed, predeleted)

-- The keys to strip: those that are no tombstone's.
unfoldable pub keys_to_delete : {I : Type 0} → ScatterChanges I → List Text
unfolding retain any
keys_to_delete changes =
    retain (λ k. not (any (λ t. text_eq t k) changes.tombstone_keys)) changes.all_keys

abbrev pub is_empty : {A : Type 0} → List A → Bool
is_empty [] = true
is_empty (_ ∷ _) = false

module _ {W B I : Type 0} (m : BMap B (DirFileEntryRaw I)) (crc64 : Text → ℕ)
    (staging : DirStaging W B) (inode_of : Text → I) (others : ℕ → W → W) where
  unfoldable pub strip : W → List Text → W × Result (Unit {0})
  strip w to_delete =
      if is_empty to_delete then (w, ok tt) else staging.remove_scatter_inodes w to_delete

  -- The fold, the flush and the strip, on the tree that was loaded.
  unfoldable pub apply_changes : W → B → ScatterChanges I → W × Result (B × CompactStats)
  unfolding fold_changes keys_to_delete strip
  apply_changes w b changes = (w, fold_changes m crc64 b changes) >>>= λ w folded.
      let (b', removed, predeleted) = folded in
      staging.flush w b' >>>= λ w _. strip (others 3 w) (keys_to_delete changes) >>>= λ w _. (
        w,
        ok (
          b',
          record {
            scatters_processed = length changes.all_keys;
            entries_added = length changes.upserts;
            entries_removed = length removed + length predeleted;
            tombstones_kept = length changes.tombstone_keys;
            no_op = false;
            removed_children = map (λ kv. kv.1) removed;
            predeleted = predeleted;
          },
        ),
      )

  unfoldable pub compact_inner : W → W × Result (B × CompactStats)
  unfolding collect_scatter_changes apply_changes
  compact_inner w = (w, staging.load_bmap w) >>>= λ w b.
      collect_scatter_changes staging inode_of others w >>>= λ w changes.
      let applied = apply_changes w b changes in
      if is_empty changes.all_keys then (w, ok (b, no_op_stats)) else applied

  unfoldable pub compact : W → W × Result (B × CompactStats)
  unfolding compact_inner
  compact w = staging.acquire_compact_lease w default_compact_lease_ttl_ms >>>= λ w lease.
      let (w', result) = compact_inner w in
      ((staging.release_compact_lease (others 4 w') lease).0, result)
