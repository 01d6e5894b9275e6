-- ===== src/Directory/Entries.antt =====
-- The operations on one entry (src/file.rs). Each that writes first loads the latest persisted
-- tree. A tree call that fails may leave the handle's tree half changed: no operation here uses it
-- again, so that the answer after an error carries no tree.
use hyperdir.Base.{
  ℕ, Bool, true, false, Option, none, some, if◌then◌else◌, Text, text_eq, not_found, Result, ok,
  err, ◌>>=◌,
}
use hyperdir.Ondisk.{DirFileEntryRaw, DirFileEntry, from, from_raw}
use hyperdir.Probe.{BMap, probe_lookup, probe_upsert, probe_delete}
use hyperdir.Directory.{DirStaging, ◌>>>=◌}

-- The entry that a lookup found, or `NotFound`.
abbrev pub found_entry : {A : Type 0} → Option (ℕ × A) → Result A
found_entry none = err not_found
found_entry (some (_, entry)) = ok entry

module _ {W B I : Type 0} (m : BMap B (DirFileEntryRaw I)) (crc64 : Text → ℕ)
    (staging : DirStaging W B) where
  -- `load_latest_bmap`, and `reload_to_latest` as far as the tree goes.
  unfoldable pub load_latest_bmap : W → Result B
  load_latest_bmap w = staging.load_bmap w

  unfoldable pub read_entry : {J : Type 0} → (I → J) → W → Text → Result (DirFileEntry J)
  unfolding load_latest_bmap
  read_entry inode_of w name = do
    b ← load_latest_bmap w
    slot ← probe_lookup m crc64 b name (crc64 name)
    entry ← found_entry slot
    ok (from_raw inode_of entry)

  -- On the tree that the handle has.
  unfoldable pub read_entry_raw : B → Text → Result (DirFileEntryRaw I)
  read_entry_raw b name = do slot ← probe_lookup m crc64 b name (crc64 name); found_entry slot

  -- A flush, and the tree that the handle then has.
  unfoldable pub flush_tree : {A : Type 0} → W → B → A → W × Result (B × A)
  flush_tree w b a = staging.flush w b >>>= λ w' _. (w', ok (b, a))

  unfoldable pub insert_entry : W → Text → DirFileEntryRaw I → W × Result (B × Unit {0})
  unfolding load_latest_bmap flush_tree
  insert_entry w name entry = (w, load_latest_bmap w) >>>= λ w b.
      (w, probe_upsert m crc64 b name entry) >>>= λ w b'. flush_tree w b' tt

  unfoldable pub insert_entry_excl : W → Text → DirFileEntryRaw I → W × Result (B × Bool)
  unfolding load_latest_bmap flush_tree
  insert_entry_excl w name entry = (w, load_latest_bmap w) >>>= λ w b.
      (w, probe_lookup m crc64 b name (crc64 name)) >>>= λ w slot. elim slot [
        | some _ ↦ (w, ok (b, false))
        | none ↦ (w, probe_upsert m crc64 b name entry) >>>= λ w b'. flush_tree w b' true
      ]

  unfoldable pub remove_entry : W → Text → W × Result (B × Bool)
  unfolding load_latest_bmap flush_tree
  remove_entry w name = (w, load_latest_bmap w) >>>= λ w b.
      (w, probe_delete m crc64 b name) >>>= λ w removed.
      let (b', was) = removed in flush_tree w b' was

  -- On the tree `b` of the handle.
  unfoldable pub rename_within : W → B → Text → Text → W × Result (B × Unit {0})
  unfolding flush_tree
  rename_within w b old_name new_name =
      let renamed = (w, probe_lookup m crc64 b old_name (crc64 old_name)) >>>= λ w slot.
      (w, found_entry slot) >>>= λ w entry. (w, probe_delete m crc64 b old_name) >>>= λ w removed.
      (w, probe_upsert m crc64 removed.0 new_name (from entry.inode entry.uuid new_name))
      >>>= λ w b'. flush_tree w b' tt in
      if text_eq old_name new_name then (w, ok (b, tt)) else renamed
