-- ===== src/Directory/Compact/Fold.antt =====
-- The fold of compaction refines the finite map from names to entries: the upserts bind, then the
-- deletes and the markers unbind.
use hyperdir.Base.{
  ℕ, ◌≤◌, true, ◌≡◌, refl, ap, ◌⊎◌, inl, inr, Option, none, some, [], ◌∷◌, ◌++◌, Text, other,
  if◌then◌else◌, ok, err, All,
}
use hyperdir.Ondisk.{DirFileEntryRaw}
use hyperdir.Probe.{u64_max, BMap, named, probe_upsert}
use hyperdir.Probe.Slots.{IsMap, Models, update}
use hyperdir.Probe.Upsert.{Taken, probe_upsert-Models}
use hyperdir.Probe.Remove.{is_some, probe_delete-Models}
use hyperdir.Directory.{Dict}
use hyperdir.Directory.Changes.{ScatterChanges}
use hyperdir.Directory.Compact.{fold_upserts, fold_deletes, fold_changes}

-- The map with the names of a dictionary bound, or unbound.
abbrev pub bind_all : {V : Type 0} → (Text → Option V) → Dict V → Text → Option V
bind_all f [] = f
bind_all f ((name, v) ∷ rest) = bind_all (update f name (some v)) rest

abbrev pub unbind_all : {V U : Type 0} → (Text → Option V) → Dict U → Text → Option V
unbind_all f [] = f
unbind_all f ((name, _) ∷ rest) = unbind_all (update f name none) rest

-- The bindings of a dictionary whose name is bound when its turn comes.
abbrev pub held_in : {V U : Type 0} → (Text → Option V) → Dict U → Dict U
held_in f [] = []
held_in f ((name, u) ∷ rest) =
    let held = held_in (update f name none) rest in
    if is_some (f name) then (name, u) ∷ held else held

module _ {I B : Type 0} (m : BMap B (DirFileEntryRaw I)) (crc64 : Text → ℕ) (h : IsMap m)
    (small : (name : Text) → crc64 name ≤ u64_max) where
  -- A binding of the dictionary, of a name, for which there is no free key: the bindings before it
  -- lead to a tree that stands for `f` with them bound, and in which every slot from the name's
  -- home on holds another name.
  abbrev pub NoRoom : B → (Text → Option (DirFileEntryRaw I)) → Dict (DirFileEntryRaw I) → Type 0
  NoRoom b f d =
      (before : Dict (DirFileEntryRaw I)) × (name : Text) × (e : DirFileEntryRaw I) × (after : Dict
        (DirFileEntryRaw I))
      × (b' : B) × (d ≡ before ++ (name, e) ∷ after)
      × (fold_upserts m crc64 b before ≡ ok b')
      × Models crc64 (h.content b') (bind_all f before)
      × ((j : ℕ) → crc64 name ≤ j → j ≤ u64_max → Taken m crc64 h b' name j)

  -- Each entry carries the name that it is bound to.
  abbrev pub Owned : Text × DirFileEntryRaw I → Type 0
  Owned (name, e) = named e name ≡ true

  NoRoom-later :
      (b b' : B) (f : Text → Option (DirFileEntryRaw I)) (name : Text) (e : DirFileEntryRaw I)
      (rest : Dict (DirFileEntryRaw I))
      → probe_upsert m crc64 b name e ≡ ok b'
      → NoRoom b' (update f name (some e)) rest
      → NoRoom b f ((name, e) ∷ rest)
  unfolding fold_upserts
  NoRoom-later b b' f name e rest done (before, stuck, e', after, b'', parts, folds, w, full) = (
    (name, e) ∷ before,
    stuck,
    e',
    after,
    b'',
    ap (λ d. (name, e) ∷ d) parts,
    rw done folds,
    w,
    full,
  )

  fold_upserts-Models :
      (b : B) (f : Text → Option (DirFileEntryRaw I)) (d : Dict (DirFileEntryRaw I))
      → Models crc64 (h.content b) f
      → All Owned d
      → ((b' : B) × (fold_upserts m crc64 b d ≡ ok b') × Models crc64 (h.content b') (bind_all f d))
        ⊎ ((fold_upserts m crc64 b d ≡ err other) × NoRoom b f d)
  unfolding fold_upserts
  fold_upserts-Models b f [] w own = inl (b, refl, w)
  fold_upserts-Models b f ((name, e) ∷ rest) w (o, own) =
      elim (probe_upsert-Models m crc64 h b f name e w o (small name)) [
        | inl (b', done, w') ↦ elim (fold_upserts-Models b' (update f name (some e)) rest w' own) [
          | inl folds ↦ rw done (inl folds)
          | inr (fails, stuck) ↦ inr (rw done fails, NoRoom-later b b' f name e rest done stuck)
        ]
        | inr (fails, full) ↦ inr (rw fails refl, ([], name, e, rest, b, refl, refl, w, full))
      ]

  fold_deletes-Models :
      {V : Type 0} (b : B) (f : Text → Option (DirFileEntryRaw I)) (d : Dict V)
      → Models crc64 (h.content b) f
      → (b' : B) × (fold_deletes m crc64 b d ≡ ok (b', held_in f d))
        × Models crc64 (h.content b') (unbind_all f d)
  unfolding fold_deletes
  fold_deletes-Models b f [] w = (b, refl, w)
  fold_deletes-Models b f ((name, v) ∷ rest) w =
      let (b₁, done, w₁) = probe_delete-Models m crc64 h b f name w (small name) in
      let (b₂, folds, w₂) = fold_deletes-Models b₁ (update f name none) rest w₁ in
      (b₂, rw (done, folds) refl, w₂)

  -- On a well-formed tree that stands for the map `f`, with every pending entry under its own name,
  -- the fold returns a well-formed tree that stands for `f` with the upserts bound and then the
  -- deletes and the markers unbound, and reports exactly the deletes and the markers whose name was
  -- bound at their turn; or it fails, and then the upserts before one of them lead from the tree to
  -- one that stands for `f` with these bound, and in which every slot from the home of this
  -- upsert's name on is taken by another name.
  pub fold_changes-Models :
      (b : B) (f : Text → Option (DirFileEntryRaw I)) (changes : ScatterChanges I)
      → Models crc64 (h.content b) f
      → All Owned changes.upserts
      → ((b' : B) × (fold_changes m crc64 b changes
            ≡ ok (
              b',
              held_in (bind_all f changes.upserts) changes.deletes,
              held_in (unbind_all (bind_all f changes.upserts) changes.deletes) changes.predeletes,
            ))
          × Models crc64 (h.content b') (
              unbind_all
                (unbind_all (bind_all f changes.upserts) changes.deletes)
                changes.predeletes))
        ⊎ ((fold_changes m crc64 b changes ≡ err other) × NoRoom b f changes.upserts)
  unfolding fold_changes
  fold_changes-Models b f changes w own = elim (fold_upserts-Models b f changes.upserts w own) [
    | inl (b₁, done₁, w₁) ↦
        let (b₂, done₂, w₂) = fold_deletes-Models b₁ _ changes.deletes w₁ in
        let (b₃, done₃, w₃) = fold_deletes-Models b₂ _ changes.predeletes w₂ in
        inl (b₃, rw (done₁, done₂, done₃) refl, w₃)
    | inr (fails, full) ↦ inr (rw fails refl, full)
  ]
