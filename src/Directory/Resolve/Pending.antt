-- ===== src/Directory/Resolve/Pending.antt =====
-- The fast path answers by the latest pending event of the name.
use hyperdir.Base.{
  ℕ, true, ◌≡◌, refl, sym, ◌∙◌, ap, Option, none, some, List, [], ◌∷◌, ◌++◌, retain, Text, text_eq,
  text_eq_symm, text_eq_iff, ok, All, ◌≤◌, Option-cases, inl, inr,
}
use mathlib.Core.List.{append_assoc, append-nil}
use mathlib.Core.Option.{map}
use hyperdir.Ondisk.{DirFileEntryRaw, DirFileEntry, from, from_raw}
use hyperdir.Probe.{u64_max, BMap}
use hyperdir.Probe.Slots.{IsMap, Models}
use hyperdir.Probe.Lookup.{probe_lookup-held, probe_lookup-absent}
use hyperdir.Scatter.{
  create, update, pre_delete, delete, unknown, DirScatterInodeOp, DirScatterInode, sort, pop,
  push_group, group_from, last_of_groups, filter_last_view,
}
use hyperdir.Scatter.Order.{greatest, pop-sort}
use hyperdir.Scatter.Latest.{latest, events_of}
use hyperdir.Directory.{DirStaging}
use hyperdir.Directory.Changes.{entry_of}
use hyperdir.Directory.Resolve.{
  next, resolve_in_bmap, resolve_fetched, resolve_latest, resolve_fast,
}

-- An event with its body, if it has one.
abbrev pub with_body : DirScatterInode → Option Text → List (DirScatterInode × Text)
with_body s none = []
with_body s (some body) = (s, body) ∷ []

module _ (name : Text) where
  -- An event of the name.
  abbrev pub OfName : DirScatterInode → Type 0
  OfName s = text_eq s.filename name ≡ true

  events_of-same : (ss : List DirScatterInode) → All OfName ss → events_of name ss ≡ ss
  unfolding retain
  events_of-same [] a = refl
  events_of-same (s ∷ ss) (here, rest) = rw (here, events_of-same ss rest) refl

  -- Events of one name make one group.
  one_group :
      (v ss : List DirScatterInode)
      → All OfName ss
      → group_from ((name, v) ∷ []) ss ≡ (name, v ++ ss) ∷ []
  unfolding group_from push_group
  one_group v [] a = ap (λ g. (name, g) ∷ []) (sym (append-nil v))
  one_group v (s ∷ ss) (here, rest) =
      rw (text_eq_symm name s.filename, here)
        (one_group (v ++ s ∷ []) ss rest ∙ ap (λ g. (name, g) ∷ []) (append_assoc v (s ∷ []) ss))

  next_of_one : (v : List DirScatterInode) → next (last_of_groups ((name, v) ∷ [])) ≡ pop (sort v)
  unfolding last_of_groups
  next_of_one v = of_pop (pop (sort v))
    where
      of_pop :
          (p : Option DirScatterInode) → next (elim p [ some last ↦ last ∷ [] | none ↦ [] ]) ≡ p
      of_pop none = refl
      of_pop (some last) = refl

  -- The first of the last view of one name's events is the greatest of them.
  next-filter_last_view :
      (ss : List DirScatterInode) → All OfName ss → next (filter_last_view ss) ≡ latest name ss
  unfolding filter_last_view latest greatest retain
  next-filter_last_view [] a = refl
  next-filter_last_view (s ∷ ss) (here, rest) =
      let same = (text_eq_iff s.filename name).0 here in
      ap (λ n. next (last_of_groups (group_from ((n, s ∷ []) ∷ []) ss))) same
      ∙ ap (λ g. next (last_of_groups g)) (one_group (s ∷ []) ss rest)
      ∙ next_of_one (s ∷ ss)
      ∙ pop-sort (s ∷ ss)
      ∙ ap greatest (sym (events_of-same (s ∷ ss) (here, rest)))

module _ {W B I J : Type 0} (m : BMap B (DirFileEntryRaw I)) (crc64 : Text → ℕ)
    (staging : DirStaging W B) (h : IsMap m) (inode_of : Text → I) (to_inode : I → J)
    (others : ℕ → W → W) (name : Text) (small : crc64 name ≤ u64_max) where
  resolve_in_bmap-Models :
      (v : W) (b : B) (f : Text → Option (DirFileEntryRaw I))
      → staging.load_bmap v ≡ ok b
      → Models crc64 (h.content b) f
      → resolve_in_bmap m crc64 staging inode_of to_inode others name v
        ≡ ok (map (from_raw to_inode) (f name))
  unfolding resolve_in_bmap
  resolve_in_bmap-Models v b f loads models = elim (Option-cases (f name)) [
    | inl gap ↦
        rw (loads, probe_lookup-absent m crc64 h b name (λ k e. models.absent name k e gap), gap)
          refl
    | inr (e, bound) ↦
        let at = models.present name e bound in
        rw
          (
            loads,
            probe_lookup-held m crc64 h b models.table name at.slot e small at.holds at.is_named,
            bound,
          )
          refl
  ]

  module _ (w : W) (b b' : B) (f f' : Text → Option (DirFileEntryRaw I))
      (loads : staging.load_bmap (others 0 w) ≡ ok b) (models : Models crc64 (h.content b) f)
      (loads_later : staging.load_bmap (others 1 (others 0 w)) ≡ ok b')
      (models_later : Models crc64 (h.content b') f') (bodies : DirScatterInode → Option Text)
      (fetches : (s : DirScatterInode)
        → staging.collect_scatter_inodes (others 0 w) (s ∷ []) ≡ ok (with_body s (bodies s))) where
    -- The entry of an event with its body, or the later tree's where the body is gone.
    abbrev pub of_body : DirScatterInode → Option Text → Option (DirFileEntry J)
    of_body s none = map (from_raw to_inode) (f' name)
    of_body s (some bytes) = some (from_raw to_inode (from (inode_of bytes) s.uuid s.filename))

    -- What the latest event of the name says that the name is bound to.
    abbrev pub resolved : Option DirScatterInode → Option (DirFileEntry J)
    resolved none = map (from_raw to_inode) (f name)
    resolved (some s) = elim s.op [
      | create ↦ of_body s (bodies s)
      | update ↦ of_body s (bodies s)
      | pre_delete ↦ none
      | delete ↦ none
      | unknown ↦ map (from_raw to_inode) (f name)
    ]

    resolve_fetched-of_body :
        (s : DirScatterInode) (body : Option Text)
        → resolve_fetched m crc64 staging inode_of to_inode others name
            (others 0 w)
            (with_body s body)
          ≡ ok (of_body s body)
    unfolding resolve_fetched entry_of
    resolve_fetched-of_body s none =
        resolve_in_bmap-Models (others 1 (others 0 w)) b' f' loads_later models_later
    resolve_fetched-of_body s (some bytes) = refl

    resolve_latest-resolved :
        (last : Option DirScatterInode)
        → resolve_latest m crc64 staging inode_of to_inode others name w last ≡ ok (resolved last)
    unfolding resolve_latest
    resolve_latest-resolved none = resolve_in_bmap-Models (others 0 w) b f loads models
    resolve_latest-resolved (some s) = by_op s.op refl
      where
        by_op :
            (o : DirScatterInodeOp)
            → s.op ≡ o
            → resolve_latest m crc64 staging inode_of to_inode others name w (some s)
              ≡ ok (resolved (some s))
        by_op create is = rw (is, fetches s) (resolve_fetched-of_body s (bodies s))
        by_op update is = rw (is, fetches s) (resolve_fetched-of_body s (bodies s))
        by_op pre_delete is = rw is refl
        by_op delete is = rw is refl
        by_op unknown is = rw is (resolve_in_bmap-Models (others 0 w) b f loads models)

    -- When the store lists events of the name only, in any order, and the loads of the tree and the
    -- fetch of an event succeed, the fast path answers by the greatest of these events by
    -- modification time, ulid and key: nothing for a PreDelete or a Delete; for a Create or an Update
    -- the entry of its body, under its name and uuid, or what the tree then binds the name to where
    -- the body is gone; and what the tree binds the name to for an unknown operation and where there
    -- is no event.
    pub resolve_fast-latest :
        (scatters : List DirScatterInode)
        → staging.list_scatter_inodes_for_name w name ≡ ok scatters
        → All (OfName name) scatters
        → resolve_fast m crc64 staging inode_of to_inode others name w
          ≡ ok (resolved (latest name scatters))
    unfolding resolve_fast
    resolve_fast-latest scatters lists of_name = rw lists (
        ap (resolve_latest m crc64 staging inode_of to_inode others name w)
          (next-filter_last_view name scatters of_name)
        ∙ resolve_latest-resolved (latest name scatters))
