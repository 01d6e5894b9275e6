-- ===== src/Fs/Compaction/Settled.antt =====
-- What the second phase of a delete keeps of the first.
use hyperdir.Base.{
  ℕ, ◌≡◌, refl, sym, ap, ◌∙◌, ◌⊎◌, inl, inr, Bool, true, false, Option, none, some, Text, Result,
  ok, err,
}
use mathlib.Core.Path.{subst}
use hyperdir.Base.Int.{ℤ, IsI64, ltz}
use hyperdir.Layout.{HyperDirLayout}
use hyperdir.Bodies.{build_tombstone_body}
use hyperdir.Bodies.RoundTrip.{parse-build_tombstone_body}
use hyperdir.Scatter.{delete, as_u8, DirScatterInode}
use hyperdir.Object.{body, absent, PutAnswer, stored, refused, put_failed, IsStore}
use hyperdir.Staging.{path_encode, emit_put, emit_scatter_event}
use hyperdir.Directory.{DirStaging}
use hyperdir.Directory.Changes.{is_delete}
use hyperdir.Gc.Collect.{skipped_retention, object_bytes, gc_parsed, gc_read, gc_one}
use hyperdir.Gc.Frame.{adjust_nlink-frame}
use hyperdir.Fs.{System}
use hyperdir.Fs.Remove.{deadline}
use hyperdir.Fs.Compaction.{
  child_uri_of, drop_link, settle_emitted, settle_loaded, settle_opened, settle_one,
}
use hyperdir.Fs.Remove.Marked.{deadline-IsI64}

module _ {W B R S : Type 0} (sys : System W B R S) (store : IsStore sys.client)
    (bucket root_path : Text) (others races : ℕ → W → W) (clock : ℕ → ℤ) (ulids : ℕ → Text) (n : ℕ)
    (w : W) (name uuid : Text) (is_dir : Bool) (unlinked_at : ℤ) (retention : Option ℕ)
    (whole : (key bytes : Text)
      → (store.content (sys.client.put_object w key bytes absent).0 key ≡ store.content w key)
        ⊎ ((tag : Text) × (store.content (sys.client.put_object w key bytes absent).0 key
              ≡ some (bytes, tag))))
    (flush_frame : (v : W) (uri : Text) (raw : R) (state : S) (key : Text)
      → store.content (sys.child.flush_inode v uri raw state).0 key ≡ store.content v key)
    (races_frame : (k : ℕ) (v : W) (key : Text)
      → store.content (races k v) key ≡ store.content v key) where
  abbrev child_uri : Text
  child_uri = child_uri_of bucket root_path is_dir uuid

  abbrev pub tombstone_key : Text
  tombstone_key = path_encode sys.scatter_base64 (ulids n) root_path name uuid (as_u8 delete)

  abbrev tombstone_body : R → Text
  tombstone_body raw =
      build_tombstone_body (clock n) (deadline unlinked_at retention) (sys.as_u8_slice raw)

  -- What stands under the key: what stood there, or the tombstone of an inode.
  abbrev Left : Option (Text × Text) → Type 0
  Left held =
      (held ≡ store.content w tombstone_key)
      ⊎ ((raw : R) × (tag : Text) × (held ≡ some (tombstone_body raw, tag)))

  drop_link-frame :
      (v : W)
      → store.content
          (drop_link sys bucket root_path others races clock ulids v child_uri)
          tombstone_key
        ≡ store.content v tombstone_key
  unfolding drop_link
  drop_link-frame v =
      adjust_nlink-frame sys.child sys.fields child_uri races _ (λ x. store.content x tombstone_key)
        (λ x uri raw state. flush_frame x uri raw state tombstone_key)
        (λ k x. races_frame k x tombstone_key) v

  emitted-Left :
      (p : W × PutAnswer) (kind : Bool)
      → Left (store.content p.0 tombstone_key)
      → Left (
          store.content
            (settle_emitted sys bucket root_path others races clock ulids child_uri kind
              (emit_put sys.client p))
            tombstone_key)
  unfolding settle_emitted emit_put
  emitted-Left (v, stored tag) true h = h
  emitted-Left (v, stored tag) false h = subst Left (sym (drop_link-frame v)) h
  emitted-Left (v, refused) true h = h
  emitted-Left (v, refused) false h = subst Left (sym (drop_link-frame v)) h
  emitted-Left (v, put_failed) kind h = h

  loaded-Left :
      (l : Result (R × S))
      → Left (
          store.content
            (settle_loaded sys bucket root_path others races clock ulids n w name uuid is_dir
              (deadline unlinked_at retention)
              child_uri
              l)
            tombstone_key)
  unfolding settle_loaded emit_scatter_event
  loaded-Left (err e) = inl refl
  loaded-Left (ok (raw, state)) =
      emitted-Left (sys.client.put_object w tombstone_key (tombstone_body raw) absent) is_dir
        (elim (whole tombstone_key (tombstone_body raw)) [
          | inl stays ↦ inl stays
          | inr (tag, puts) ↦ inr (raw, tag, puts)
        ])

  opened-Left :
      (o : Result (Unit {0}))
      → Left (
          store.content
            (settle_opened sys bucket root_path others races clock ulids n w name uuid is_dir
              (deadline unlinked_at retention)
              child_uri
              o)
            tombstone_key)
  unfolding settle_opened
  opened-Left (err e) = inl refl
  opened-Left (ok u) = loaded-Left (sys.child.load_inode w child_uri)

  settle_one-Left : Left (
      store.content
        (settle_one sys bucket root_path others races clock ulids n w name uuid is_dir
          (deadline unlinked_at retention))
        tombstone_key)
  unfolding settle_one
  settle_one-Left = opened-Left (sys.child.open_child w child_uri)

  module _ (staging : DirStaging W B) (layout : HyperDirLayout) (gc_bucket : Text) (gc_now : ℤ)
      (small : IsI64 (clock n)) (early : ltz gc_now (deadline unlinked_at retention) ≡ true) (v : W)
      (s : DirScatterInode) (is : is_delete s ≡ true) where
    tombstone-early :
        (raw : R)
        → gc_read sys.client sys.child sys.fields sys.tree sys.crc64 staging layout gc_bucket gc_now
            v s
            (ok (tombstone_body raw))
          ≡ (v, skipped_retention)
    unfolding gc_read gc_parsed
    tombstone-early raw =
        ap
          (gc_parsed sys.client sys.child sys.fields sys.tree sys.crc64 staging layout gc_bucket
            gc_now v s)
          (parse-build_tombstone_body (clock n) (deadline unlinked_at retention)
            (sys.as_u8_slice raw) small (deadline-IsI64 unlinked_at retention))
        ∙ rw early refl

    -- The deadline of an unlink holds after the second phase of the delete: when the key of the
    -- tombstone was free and settling a marker with this deadline, at a clock in the range of `i64`,
    -- leaves an object there, then a collector that reads this object's bytes as those of a Delete
    -- event, at a clock before the deadline, passes over it without a change of the store. It is asked
    -- that a put leaves under its key what was there or what was put, and that the flush of an inode
    -- and the other clients during the decrement leave the objects as they were.
    pub settle_one-retained :
        (bytes tag gc_tag : Text)
        → store.content w tombstone_key ≡ none
        → store.content
            (settle_one sys bucket root_path others races clock ulids n w name uuid is_dir
              (deadline unlinked_at retention))
            tombstone_key
          ≡ some (bytes, tag)
        → sys.client.get_object v s.key ≡ body bytes gc_tag
        → gc_one sys.client sys.child sys.fields sys.tree sys.crc64 staging layout gc_bucket gc_now
            v s
          ≡ (v, skipped_retention)
    unfolding gc_one object_bytes
    settle_one-retained bytes tag gc_tag free left reads = elim (settle_one-Left) [
      | inl stays ↦ absurd (no_object (sym left ∙ stays ∙ free))
      | inr (raw, mine, tombstone) ↦
          rw (is, reads)
            (ap
                (λ x.
                  gc_read sys.client sys.child sys.fields sys.tree sys.crc64 staging layout
                    gc_bucket gc_now v s (ok x))
                (same raw mine (sym left ∙ tombstone))
              ∙ tombstone-early raw)
    ]
      where
        no_object : ◌≡◌ {A = Option (Text × Text)} (some (bytes, tag)) none → ⊥
        no_object q = cc

        same :
            (raw : R) (mine : Text)
            → ◌≡◌ {A = Option (Text × Text)} (some (bytes, tag)) (some (tombstone_body raw, mine))
            → bytes ≡ tombstone_body raw
        same raw mine q = cc
