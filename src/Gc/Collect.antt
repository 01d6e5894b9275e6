-- ===== src/Gc/Collect.antt =====
-- `fs_gc` of src/fs.rs: one tombstone, and the pass over all. `now_ms` is the clock of the pass. The
-- parent's staging and the directory's handle are opened already, and no other client acts during
-- the pass.
use hyperdir.Base.{
  ℕ, ◌+◌, Bool, true, false, Option, none, some, List, [], ◌∷◌, ◌==◌, if◌then◌else◌, Text, text_eq,
  not_found, other, Result, ok, err,
}
use hyperdir.Base.Int.{ℤ, ltz}
use hyperdir.Layout.{HyperDirLayout, dir_uri, file_uri}
use hyperdir.Ondisk.{DirFileEntryRaw, DirFileEntry}
use hyperdir.Bodies.{TombstoneHeader, parse_tombstone_body}
use hyperdir.Scatter.{DirScatterInode}
use hyperdir.Probe.{BMap}
use hyperdir.Object.{GetAnswer, body, no_such_key, get_failed, Client}
use hyperdir.Directory.{DirStaging, ◌>>>=◌}
use hyperdir.Directory.Changes.{is_delete}
use hyperdir.Directory.Entries.{read_entry}
use hyperdir.Gc.{ChildStaging, InodeFields, is_dir_mode, current_nlink, reclaim_child_prefix}

-- What a pass does with one scatter object.
pub data Outcome : Type 0 where
  no_tombstone skipped_retention skipped_unfolded reclaimed failed : Outcome

pub record GcStats : Type 0 where
  pub tombstones_visited : ℕ
  pub tombstones_skipped_retention : ℕ
  pub tombstones_skipped_unfolded : ℕ
  pub tombstones_reclaimed : ℕ
  pub errors : ℕ

abbrev pub default_stats : GcStats
default_stats = record {
  tombstones_visited = 0;
  tombstones_skipped_retention = 0;
  tombstones_skipped_unfolded = 0;
  tombstones_reclaimed = 0;
  errors = 0;
}

unfoldable pub count : GcStats → Outcome → GcStats
count s no_tombstone = s
count s skipped_retention = record s {
  tombstones_visited = s.tombstones_visited + 1;
  tombstones_skipped_retention = s.tombstones_skipped_retention + 1;
}
count s skipped_unfolded = record s {
  tombstones_visited = s.tombstones_visited + 1;
  tombstones_skipped_unfolded = s.tombstones_skipped_unfolded + 1;
}
count s reclaimed = record s {
  tombstones_visited = s.tombstones_visited + 1;
  tombstones_reclaimed = s.tombstones_reclaimed + 1;
}
count s failed = record s { tombstones_visited = s.tombstones_visited + 1; errors = s.errors + 1 }

-- `get_object_bytes`
unfoldable pub object_bytes : GetAnswer → Result Text
object_bytes (body bytes _) = ok bytes
object_bytes no_such_key = err other
object_bytes get_failed = err other

-- A file's storage goes when no link is left, or when it is gone already.
unfoldable pub unlinked : Result (Option ℕ) → Result Bool
unlinked (ok (some n)) = ok (n == 0)
unlinked (ok none) = ok true
unlinked (err e) = err e

module _ {W R S B I : Type 0} (client : Client W) (child : ChildStaging W R S)
    (fields : InodeFields R) (m : BMap B (DirFileEntryRaw I)) (crc64 : Text → ℕ)
    (staging : DirStaging W B) (layout : HyperDirLayout) (bucket : Text) (now_ms : ℤ) where
  -- The removal of the tombstone, and its answer.
  unfoldable pub gc_finish : W × Result (Unit {0}) → W × Outcome
  gc_finish (w, ok _) = (w, reclaimed)
  gc_finish (w, err _) = (w, failed)

  unfoldable pub gc_strip : DirScatterInode → W × Result (Unit {0}) → W × Outcome
  unfolding gc_finish
  gc_strip s (w, ok _) = gc_finish (staging.remove_scatter_inodes w (s.key ∷ []))
  gc_strip s (w, err _) = (w, failed)

  -- After the decision whether to reclaim the child's storage.
  unfoldable pub gc_reclaim : W → DirScatterInode → Text → Result Bool → W × Outcome
  unfolding gc_strip
  gc_reclaim w s child_uri (ok true) = gc_strip s (reclaim_child_prefix child fields child_uri w)
  gc_reclaim w s child_uri (ok false) = gc_strip s (w, ok tt)
  gc_reclaim w s child_uri (err _) = (w, failed)

  -- The child's prefix, by the mode that the tombstone keeps.
  unfoldable pub uri_of : DirScatterInode → Text → Text
  unfolding is_dir_mode dir_uri file_uri
  uri_of s inode_bytes =
      if is_dir_mode (fields.i_mode (fields.from_u8_slice inode_bytes))
      then dir_uri layout bucket s.uuid
      else file_uri layout bucket s.uuid

  unfoldable pub gc_child : W → DirScatterInode → Text → W × Outcome
  unfolding gc_reclaim unlinked is_dir_mode
  gc_child w s inode_bytes =
      let child_uri = uri_of s inode_bytes in
      gc_reclaim w s child_uri (
        if is_dir_mode (fields.i_mode (fields.from_u8_slice inode_bytes))
        then ok true
        else unlinked (current_nlink child fields child_uri w))

  -- The fold guard: what the name resolves to in the tree.
  unfoldable pub gc_folded : W → DirScatterInode → Text → Result (DirFileEntry I) → W × Outcome
  unfolding gc_child
  gc_folded w s inode_bytes (ok entry) =
      let next = gc_child w s inode_bytes in
      if text_eq entry.uuid s.uuid then (w, skipped_unfolded) else next
  gc_folded w s inode_bytes (err not_found) = gc_child w s inode_bytes
  gc_folded w s inode_bytes (err e) = (w, failed)

  -- The retention guard.
  unfoldable pub gc_parsed : W → DirScatterInode → Result (TombstoneHeader × Text) → W × Outcome
  unfolding gc_folded
  gc_parsed w s (err _) = (w, failed)
  gc_parsed w s (ok (header, inode_bytes)) =
      let next = gc_folded w s inode_bytes (read_entry m crc64 staging (λ i. i) w s.filename) in
      if ltz now_ms header.retention_until_unix_ms then (w, skipped_retention) else next

  unfoldable pub gc_read : W → DirScatterInode → Result Text → W × Outcome
  unfolding gc_parsed
  gc_read w s (err _) = (w, failed)
  gc_read w s (ok bytes) = gc_parsed w s (parse_tombstone_body bytes)

  unfoldable pub gc_one : W → DirScatterInode → W × Outcome
  unfolding gc_read object_bytes
  gc_one w s =
      let visited = gc_read w s (object_bytes (client.get_object w s.key)) in
      if is_delete s then visited else (w, no_tombstone)

  unfoldable pub gc_all : W → GcStats → List DirScatterInode → W × GcStats
  unfolding gc_one count
  gc_all w stats [] = (w, stats)
  gc_all w stats (s ∷ ss) = let (w', outcome) = gc_one w s in gc_all w' (count stats outcome) ss

  unfoldable pub fs_gc : W → W × Result GcStats
  unfolding gc_all
  fs_gc w = (w, staging.list_scatter_inodes w) >>>= λ w scatters.
      let (w', stats) = gc_all w default_stats scatters in (w', ok stats)
