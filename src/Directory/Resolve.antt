-- ===== src/Directory/Resolve.antt =====
-- `resolve_fast` of src/file.rs: one name, by its pending events or by the tree. `others n` is what
-- other clients do to the store before the call `n`.
pub mod Pending
use hyperdir.Base.{ℕ, Option, none, some, List, [], ◌∷◌, Text, Result, ok, err, ◌>>=◌}
use hyperdir.Ondisk.{DirFileEntryRaw, DirFileEntry, from_raw}
use hyperdir.Probe.{BMap, probe_lookup}
use hyperdir.Scatter.{
  create, update, pre_delete, delete, unknown, DirScatterInode, filter_last_view,
}
use hyperdir.Directory.{DirStaging}
use hyperdir.Directory.Changes.{entry_of}

-- The first of a list, `into_iter().next()`.
abbrev pub next : {A : Type 0} → List A → Option A
next [] = none
next (a ∷ _) = some a

module _ {W B I J : Type 0} (m : BMap B (DirFileEntryRaw I)) (crc64 : Text → ℕ)
    (staging : DirStaging W B) (inode_of : Text → I) (to_inode : I → J) (others : ℕ → W → W)
    (name : Text) where
  -- The point lookup in the latest persisted tree.
  unfoldable pub resolve_in_bmap : W → Result (Option (DirFileEntry J))
  resolve_in_bmap w = do
    b ← staging.load_bmap w
    slot ← probe_lookup m crc64 b name (crc64 name)
    ok (elim slot [ none ↦ none | some (_, entry) ↦ some (from_raw to_inode entry) ])

  -- A Create or an Update with its body fetched, or the tree where the body is gone.
  unfoldable pub resolve_fetched :
      W → List (DirScatterInode × Text) → Result (Option (DirFileEntry J))
  unfolding resolve_in_bmap entry_of
  resolve_fetched w [] = resolve_in_bmap (others 1 w)
  resolve_fetched w (fetched ∷ _) = ok (some (from_raw to_inode (entry_of inode_of fetched)))

  -- What the latest event of the name answers.
  unfoldable pub resolve_latest : W → Option DirScatterInode → Result (Option (DirFileEntry J))
  unfolding resolve_fetched
  resolve_latest w none = resolve_in_bmap (others 0 w)
  resolve_latest w (some latest) = elim latest.op [
    | create ↦ do
      fetched ← staging.collect_scatter_inodes (others 0 w) (latest ∷ [])
      resolve_fetched (others 0 w) fetched
    | update ↦ do
      fetched ← staging.collect_scatter_inodes (others 0 w) (latest ∷ [])
      resolve_fetched (others 0 w) fetched
    | pre_delete ↦ ok none
    | delete ↦ ok none
    | unknown ↦ resolve_in_bmap (others 0 w)
  ]

  unfoldable pub resolve_fast : W → Result (Option (DirFileEntry J))
  unfolding resolve_latest
  resolve_fast w = do
    scatters ← staging.list_scatter_inodes_for_name w name
    resolve_latest w (next (filter_last_view scatters))
