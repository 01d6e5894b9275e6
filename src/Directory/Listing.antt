-- ===== src/Directory/Listing.antt =====
-- Reading a directory (src/file.rs): the walk over the tree, and the view that the pending events
-- are laid over. `others n` is what other clients do to the store after the read `n`. `BMap::last_key` and `seek_key` are btree-ondisk's, `from_utf8_lossy` the standard
-- library's: parameters.
pub mod Walked
pub mod Dicts
pub mod Events
pub mod View
use hyperdir.Base.{
  ℕ, zero, suc, ◌+◌, List, [], ◌∷◌, map, ltb, ◌==◌, if◌then◌else◌, Text, Result, ok, err, ◌>>=◌,
}
use hyperdir.Ondisk.{DirFileEntryRaw, DirFileEntry, is_dummy, name_bytes, from_raw}
use hyperdir.Probe.{u64_max, BMap, Answer, answer, value, absent, failed}
use hyperdir.Directory.{DirStaging, ◌>>>=◌, Dict, insert, remove}
use hyperdir.Directory.Changes.{ScatterChanges, collect_scatter_changes}

-- The calls of `BMap` that the walk makes.
pub record Cursor (B : Type 0) : Type 0 where
  pub last_key : B → Result ℕ
  pub seek_key : B → ℕ → Result ℕ

module _ {B I : Type 0} (m : BMap B (DirFileEntryRaw I)) (cursor : Cursor B) (b : B) where
  -- The entry at a key, before the rest of the walk.
  unfoldable pub walk_entry :
      Result (DirFileEntryRaw I)
      → Result (List (DirFileEntryRaw I))
      → Result (List (DirFileEntryRaw I))
  unfolding is_dummy
  walk_entry val walked = do
    entry ← val
    rest ← walked
    ok (if is_dummy entry then rest else entry ∷ rest)

  -- A round of the loop, at the key that `seek_key` found; `next` goes on behind a key.
  unfoldable pub walk_found :
      ℕ → (ℕ → Result (List (DirFileEntryRaw I))) → Answer ℕ → Result (List (DirFileEntryRaw I))
  unfolding walk_entry
  walk_found last next absent = ok []
  walk_found last next (failed e) = err e
  walk_found last next (value key) =
      if ltb last key
      then ok []
      else walk_entry (m.lookup b key) (if key == u64_max then ok [] else next (key + 1))

  -- The loop of `walk_bmap` from `n` on; each round moves `n` up, so that `u64::MAX + 1` rounds
  -- are enough.
  unfoldable pub walk_from : ℕ → ℕ → ℕ → Result (List (DirFileEntryRaw I))
  unfolding walk_found
  walk_from zero last n = ok []
  walk_from (suc rounds) last n =
      walk_found last (walk_from rounds last) (answer (cursor.seek_key b n))

  unfoldable pub walk_bmap : Result (List (DirFileEntryRaw I))
  unfolding walk_from
  walk_bmap = elim (answer (cursor.last_key b)) [
    | absent ↦ ok []
    | failed e ↦ err e
    | value last ↦ walk_from (u64_max + 1) last 0
  ]

-- Bindings laid over a view, and names taken out of it.
unfoldable pub overlay : {V : Type 0} → Dict V → Dict V → Dict V
unfolding insert
overlay view [] = view
overlay view ((name, entry) ∷ rest) = overlay (insert name entry view) rest

unfoldable pub remove_all : {V U : Type 0} → Dict V → Dict U → Dict V
unfolding remove
remove_all view [] = view
remove_all view ((name, _) ∷ rest) = remove_all (remove name view) rest

module _ {W B I : Type 0} (m : BMap B (DirFileEntryRaw I)) (cursor : Cursor B)
    (staging : DirStaging W B) (inode_of : Text → I) (lossy : Text → Text) where
  -- The view of the tree and the changes.
  unfoldable pub view_of : List (DirFileEntryRaw I) → ScatterChanges I → Dict (DirFileEntryRaw I)
  unfolding overlay remove_all name_bytes
  view_of entries changes =
      remove_all
        (remove_all
          (overlay (overlay [] (map (λ e. (lossy (name_bytes e), e)) entries)) changes.upserts)
          changes.deletes)
        changes.predeletes

  unfoldable pub read_dir :
      {J : Type 0} → (I → J) → (ℕ → W → W) → W → W × Result (List (DirFileEntry J))
  unfolding view_of collect_scatter_changes walk_bmap
  read_dir to_inode others w = collect_scatter_changes staging inode_of others w >>>= λ w changes.
      (others 2 w, staging.load_bmap (others 2 w)) >>>= λ w latest_bmap.
      (w, walk_bmap m cursor latest_bmap) >>>= λ w entries.
      (w, ok (map (λ kv. from_raw to_inode kv.1) (view_of entries changes)))
