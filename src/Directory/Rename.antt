-- ===== src/Directory/Rename.antt =====
-- A rename in one directory moves one binding of the finite map that the tree stands for.
use hyperdir.Base.{
  ℕ, ◌≤◌, true, false, ◌≡◌, refl, ◌∙◌, ◌⊎◌, inl, inr, Option, none, some, Text, text_eq, not_found,
  other, ok, err,
}
use hyperdir.Ondisk.{DirFileEntryRaw, from}
use hyperdir.Probe.{u64_max, BMap, named, probe_delete}
use hyperdir.Probe.Slots.{IsMap, Models, update}
use hyperdir.Probe.Lookup.{probe_lookup-held, probe_lookup-absent}
use hyperdir.Probe.Upsert.{Taken, probe_upsert-Models}
use hyperdir.Probe.Remove.{probe_delete-Models}
use hyperdir.Directory.{DirStaging}
use hyperdir.Directory.Entries.{flush_tree, rename_within}

module _ {W B I : Type 0} (m : BMap B (DirFileEntryRaw I)) (crc64 : Text → ℕ)
    (staging : DirStaging W B) (h : IsMap m) (small : (name : Text) → crc64 name ≤ u64_max) (w : W)
    (b : B) (f : Text → Option (DirFileEntryRaw I)) (models : Models crc64 (h.content b) f)
    (old_name new_name : Text) (differ : text_eq old_name new_name ≡ false) where
  rename_missing :
      f old_name ≡ none → rename_within m crc64 staging w b old_name new_name ≡ (w, err not_found)
  unfolding rename_within
  rename_missing gap =
      rw (differ, probe_lookup-absent m crc64 h b old_name (λ k e. models.absent old_name k e gap))
        refl

  module _ (e : DirFileEntryRaw I) (bound : f old_name ≡ some e)
      (fits : named (from e.inode e.uuid new_name) new_name ≡ true) where
    -- The one flush of a tree in which the binding has moved.
    abbrev pub Renamed : Type 0
    Renamed =
        (b' : B) × (rename_within m crc64 staging w b old_name new_name
          ≡ flush_tree m crc64 staging w b' tt)
        × Models crc64 (h.content b')
            (update (update f old_name none) new_name (some (from e.inode e.uuid new_name)))

    -- The error, where the deletion of the old name leads to a tree that stands for the map
    -- without it, and in which every slot from the new name's home on is taken; nothing is flushed.
    abbrev pub Refused : Type 0
    Refused =
        (b' : B) × (rename_within m crc64 staging w b old_name new_name ≡ (w, err other))
        × (probe_delete m crc64 b old_name ≡ ok (b', true))
        × Models crc64 (h.content b') (update f old_name none)
        × ((j : ℕ) → crc64 new_name ≤ j → j ≤ u64_max → Taken m crc64 h b' new_name j)

    -- On a well-formed tree that stands for the map `f`, where the old name is bound to an entry and
    -- the new name is another one that fits its field, a rename is the flush of one tree, in which
    -- the old name is unbound and the new name is bound to the same inode and uuid; or it is
    -- refused, and then nothing is flushed, and the deletion of the old name from this tree leads to
    -- one that stands for `f` without the old name, in which every slot from the new name's home on
    -- is taken by another name.
    pub rename_within-Models : Renamed ⊎ Refused
    unfolding rename_within
    rename_within-Models =
        let at = models.present old_name e bound in
        let found =
          probe_lookup-held m crc64 h b models.table old_name at.slot e (small old_name) at.holds
            at.is_named in
        let (b₁, deletes, models₁) =
          probe_delete-Models m crc64 h b f old_name models (small old_name) in
        elim (probe_upsert-Models m crc64 h b₁ (update f old_name none) new_name
          (from e.inode e.uuid new_name) models₁ fits (small new_name)) [
            | inl (b₂, upserts, models₂) ↦
                inl (b₂, rw (differ, found, deletes, upserts) refl, models₂)
            | inr (fails, full) ↦ inr (
              b₁,
              rw (differ, found, deletes, fails) refl,
              deletes ∙ rw bound refl,
              models₁,
              full,
            )
          ]
