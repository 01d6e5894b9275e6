-- ===== src/Directory/Lookup.antt =====
-- Reading one entry answers by the finite map that the latest tree stands for.
use hyperdir.Base.{
  ℕ, ◌≤◌, ◌≡◌, refl, Option, none, some, Text, not_found, Result, ok, err, Option-cases, inl, inr,
}
use hyperdir.Ondisk.{DirFileEntryRaw, DirFileEntry, from_raw}
use hyperdir.Probe.{u64_max, BMap}
use hyperdir.Probe.Slots.{IsMap, Models}
use hyperdir.Probe.Lookup.{probe_lookup-held, probe_lookup-absent}
use hyperdir.Directory.{DirStaging}
use hyperdir.Directory.Entries.{load_latest_bmap, read_entry}

-- The answer for the binding of a name.
abbrev pub entry_or_missing :
    {I J : Type 0} → (I → J) → Option (DirFileEntryRaw I) → Result (DirFileEntry J)
entry_or_missing inode_of none = err not_found
entry_or_missing inode_of (some e) = ok (from_raw inode_of e)

-- When the latest persisted tree is well-formed and stands for the map `f`, `read_entry` answers the
-- entry that `f` binds the name to, and `NotFound` where it binds none.
pub read_entry-Models :
    {W B I J : Type 0} (m : BMap B (DirFileEntryRaw I)) (crc64 : Text → ℕ)
    (staging : DirStaging W B) (h : IsMap m) (inode_of : I → J) (w : W) (b : B)
    (f : Text → Option (DirFileEntryRaw I)) (name : Text)
    → crc64 name ≤ u64_max
    → staging.load_bmap w ≡ ok b
    → Models crc64 (h.content b) f
    → read_entry m crc64 staging inode_of w name ≡ entry_or_missing inode_of (f name)
unfolding read_entry load_latest_bmap
read_entry-Models m crc64 staging h inode_of w b f name small loads models =
    elim (Option-cases (f name)) [
      | inl gap ↦
          rw (loads, probe_lookup-absent m crc64 h b name (λ k e. models.absent name k e gap), gap)
            refl
      | inr (e, bound) ↦
          let at = models.present name e bound in
          rw
            (
              loads,
              probe_lookup-held m crc64 h b models.table name at.slot e small at.holds at.is_named,
              bound,
            )
            refl
    ]
