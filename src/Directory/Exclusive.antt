-- ===== src/Directory/Exclusive.antt =====
-- An exclusive insertion never takes a name that is bound.
use hyperdir.Base.{
  ℕ, ◌≤◌, true, false, ◌≡◌, refl, ◌⊎◌, inl, inr, Option, none, some, Text, other, ok, err,
  Option-cases,
}
use hyperdir.Ondisk.{DirFileEntryRaw}
use hyperdir.Probe.{u64_max, BMap, named}
use hyperdir.Probe.Slots.{IsMap, Models, update}
use hyperdir.Probe.Lookup.{probe_lookup-held, probe_lookup-absent}
use hyperdir.Probe.Upsert.{probe_upsert-Models}
use hyperdir.Directory.{DirStaging}
use hyperdir.Directory.Entries.{load_latest_bmap, flush_tree, insert_entry_excl}

module _ {W B I : Type 0} (m : BMap B (DirFileEntryRaw I)) (crc64 : Text → ℕ)
    (staging : DirStaging W B) (h : IsMap m) (small : (name : Text) → crc64 name ≤ u64_max) (w : W)
    (b : B) (loads : staging.load_bmap w ≡ ok b) (f : Text → Option (DirFileEntryRaw I))
    (models : Models crc64 (h.content b) f) (name : Text) (e : DirFileEntryRaw I)
    (fits : named e name ≡ true) where
  -- The name was free: one flush of a tree that binds it.
  abbrev pub Inserted : Type 0
  Inserted =
      (b' : B) × (f name ≡ none)
      × (insert_entry_excl m crc64 staging w name e ≡ flush_tree m crc64 staging w b' true)
      × Models crc64 (h.content b') (update f name (some e))

  -- The name was bound: nothing is flushed.
  abbrev pub Refused : Type 0
  Refused =
      (old : DirFileEntryRaw I) × (f name ≡ some old)
      × (insert_entry_excl m crc64 staging w name e ≡ (w, ok (b, false)))

  -- There was no slot: nothing is flushed.
  abbrev pub Full : Type 0
  Full = (f name ≡ none) × (insert_entry_excl m crc64 staging w name e ≡ (w, err other))

  -- When the latest tree stands for the map `f` and the entry has the name: where `f` binds the
  -- name, `insert_entry_excl` answers `false` and flushes nothing; where it does not,
  -- `insert_entry_excl` is the flush of a tree that stands for `f` with the name bound to the
  -- entry, or it fails without a flush.
  pub insert_entry_excl-Models : Inserted ⊎ (Refused ⊎ Full)
  unfolding insert_entry_excl load_latest_bmap
  insert_entry_excl-Models = elim (Option-cases (f name)) [
    | inr (old, bound) ↦
        let at = models.present name old bound in
        inr (
          inl (
            old,
            bound,
            rw
                (
                  loads,
                  probe_lookup-held m crc64 h b models.table name at.slot old (small name) at.holds
                      at.is_named,
                )
                refl,
          ))
    | inl gap ↦
        let free = probe_lookup-absent m crc64 h b name (λ k e. models.absent name k e gap) in
        elim (probe_upsert-Models m crc64 h b f name e models fits (small name)) [
          | inl (b', upserts, models') ↦ inl (b', gap, rw (loads, free, upserts) refl, models')
          | inr (fails, full) ↦ inr (inr (gap, rw (loads, free, fails) refl))
        ]
  ]
