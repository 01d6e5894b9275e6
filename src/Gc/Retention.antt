-- ===== src/Gc/Retention.antt =====
-- What guards the garbage collector: a tombstone's retention, the fold of its delete, and the links
-- of its file.
use hyperdir.Base.{
  ℕ, true, false, ◌≡◌, refl, ◌⊎◌, inl, inr, some, ◌==◌, Text, text_eq, not_found, already_exists,
  invalid_input, invalid_data, resource_busy, directory_not_empty, read_only_filesystem,
  interrupted, other, Result, ok, err, Bool-cases,
}
use hyperdir.Base.Int.{ℤ, ltz}
use hyperdir.Layout.{HyperDirLayout}
use hyperdir.Ondisk.{DirFileEntryRaw, DirFileEntry}
use hyperdir.Bodies.{TombstoneHeader, parse_tombstone_body}
use hyperdir.Scatter.{DirScatterInode}
use hyperdir.Probe.{BMap}
use hyperdir.Object.{Client}
use hyperdir.Directory.{DirStaging}
use hyperdir.Directory.Changes.{is_delete}
use hyperdir.Directory.Entries.{read_entry}
use hyperdir.Gc.{ChildStaging, InodeFields, is_dir_mode, current_nlink}
use hyperdir.Gc.Collect.{
  object_bytes, unlinked, uri_of, gc_strip, gc_reclaim, gc_child, gc_folded, gc_parsed, gc_read,
  gc_one,
}

module _ {W R S B I : Type 0} (client : Client W) (child : ChildStaging W R S)
    (fields : InodeFields R) (m : BMap B (DirFileEntryRaw I)) (crc64 : Text → ℕ)
    (staging : DirStaging W B) (layout : HyperDirLayout) (bucket : Text) (now_ms : ℤ) (w : W)
    (s : DirScatterInode) where
  -- The delete is folded: the name is gone from the latest tree, or names another child.
  abbrev pub Folded : Result (DirFileEntry I) → Type 0
  Folded r =
      (r ≡ err not_found) ⊎ ((e : DirFileEntry I) × (r ≡ ok e) × (text_eq e.uuid s.uuid ≡ false))

  -- A tombstone whose retention has passed and whose delete is folded.
  abbrev pub Due : Type 0
  Due =
      (is_delete s ≡ true)
      × (bytes : Text) × (header : TombstoneHeader) × (inode_bytes : Text) × (object_bytes
            (client.get_object w s.key)
          ≡ ok bytes)
      × (parse_tombstone_body bytes ≡ ok (header, inode_bytes))
      × (ltz now_ms header.retention_until_unix_ms ≡ false)
      × Folded (read_entry m crc64 staging (λ i. i) w s.filename)

  Folded-guard :
      (inode_bytes : Text) (r : Result (DirFileEntry I))
      → ((gc_folded client child fields m crc64 staging layout bucket now_ms w s inode_bytes r).0
          ≡ w)
        ⊎ Folded r
  unfolding gc_folded
  Folded-guard inode_bytes (ok entry) = elim (Bool-cases (text_eq entry.uuid s.uuid)) [
    | inl same ↦ inl (rw same refl)
    | inr differ ↦ inr (inr (entry, refl, differ))
  ]
  Folded-guard inode_bytes (err not_found) = inr (inl refl)
  Folded-guard inode_bytes (err already_exists) = inl refl
  Folded-guard inode_bytes (err invalid_input) = inl refl
  Folded-guard inode_bytes (err invalid_data) = inl refl
  Folded-guard inode_bytes (err resource_busy) = inl refl
  Folded-guard inode_bytes (err directory_not_empty) = inl refl
  Folded-guard inode_bytes (err read_only_filesystem) = inl refl
  Folded-guard inode_bytes (err interrupted) = inl refl
  Folded-guard inode_bytes (err other) = inl refl

  parsed_guard :
      (bytes : Text) (p : Result (TombstoneHeader × Text))
      → is_delete s ≡ true
      → object_bytes (client.get_object w s.key) ≡ ok bytes
      → parse_tombstone_body bytes ≡ p
      → ((gc_parsed client child fields m crc64 staging layout bucket now_ms w s p).0 ≡ w) ⊎ Due
  unfolding gc_parsed
  parsed_guard bytes (err e) is got parsed = inl refl
  parsed_guard bytes (ok (header, inode_bytes)) is got parsed =
      elim (Bool-cases (ltz now_ms header.retention_until_unix_ms)) [
        | inl kept ↦ inl (rw kept refl)
        | inr passed ↦
            elim (Folded-guard inode_bytes (read_entry m crc64 staging (λ i. i) w s.filename)) [
              | inl same ↦ inl (rw passed same)
              | inr folded ↦ inr (is, bytes, header, inode_bytes, got, parsed, passed, folded)
            ]
      ]

  read_guard :
      (r : Result Text)
      → is_delete s ≡ true
      → object_bytes (client.get_object w s.key) ≡ r
      → ((gc_read client child fields m crc64 staging layout bucket now_ms w s r).0 ≡ w) ⊎ Due
  unfolding gc_read
  read_guard (err e) is got = inl refl
  read_guard (ok bytes) is got = parsed_guard bytes (parse_tombstone_body bytes) is got refl

  -- Whatever the collector does with a scatter object, it leaves the store as it was, unless the
  -- object is a Delete with a body that parses, whose retention has passed by the clock of the
  -- pass, and whose name is gone from the latest tree or names another child there.
  pub gc_one-Due :
      ((gc_one client child fields m crc64 staging layout bucket now_ms w s).0 ≡ w) ⊎ Due
  unfolding gc_one
  gc_one-Due = elim (Bool-cases (is_delete s)) [
    | inl is ↦ elim (read_guard (object_bytes (client.get_object w s.key)) is refl) [
      | inl same ↦ inl (rw is same)
      | inr due ↦ inr due
    ]
    | inr not_delete ↦ inl (rw not_delete refl)
  ]

  -- When the tombstone's mode is that of a file, and the file's own inode counts a link still, the
  -- collector removes the tombstone and does nothing to the file's storage.
  pub gc_child-linked :
      (inode_bytes : Text) (n : ℕ)
      → is_dir_mode (fields.i_mode (fields.from_u8_slice inode_bytes)) ≡ false
      → current_nlink child fields
          (uri_of client child fields m crc64 staging layout bucket now_ms s inode_bytes)
          w
        ≡ ok (some n)
      → (n == 0) ≡ false
      → gc_child client child fields m crc64 staging layout bucket now_ms w s inode_bytes
        ≡ gc_strip client child fields m crc64 staging layout bucket now_ms s (w, ok tt)
  unfolding gc_child gc_reclaim unlinked
  gc_child-linked inode_bytes n file linked positive = rw (file, linked, positive) refl
