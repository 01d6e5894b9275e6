-- ===== src/Fs/Compaction/Behind.antt =====
-- A link goes only behind its tombstone.
use hyperdir.Base.{
  ℕ, ◌≡◌, refl, sym, ap, ◌∙◌, ◌⊎◌, inl, inr, Bool, true, false, some, Text, Result, ok, err,
}
use hyperdir.Base.Int.{ℤ}
use hyperdir.Bodies.{build_tombstone_body}
use hyperdir.Scatter.{delete, as_u8}
use hyperdir.Object.{absent, PutAnswer, stored, refused, put_failed, IsStore}
use hyperdir.Staging.{path_encode, emit_put, emit_scatter_event}
use hyperdir.Fs.{System}
use hyperdir.Fs.Compaction.{child_uri_of, drop_link, settle_emitted, settle_loaded}

module _ {W B R S : Type 0} (sys : System W B R S) (store : IsStore sys.client)
    (bucket root_path : Text) (others races : ℕ → W → W) (clock : ℕ → ℤ) (ulids : ℕ → Text)
    (quiet : (w : W) (key bytes uri : Text)
      → sys.child.load_inode (sys.client.put_object w key bytes absent).0 uri
        ≡ sys.child.load_inode w uri)
    (n : ℕ) (w : W) (name uuid : Text) (is_dir : Bool) (retention_until : ℤ) where
  abbrev pub child_uri : Text
  child_uri = child_uri_of bucket root_path is_dir uuid

  -- The key of the tombstone, and its body for an inode.
  abbrev pub tombstone_key : Text
  tombstone_key = path_encode sys.scatter_base64 (ulids n) root_path name uuid (as_u8 delete)

  abbrev pub tombstone_body : R → Text
  tombstone_body raw = build_tombstone_body (clock n) retention_until (sys.as_u8_slice raw)

  -- The child's inode is as it was.
  abbrev pub Untouched : W → Type 0
  Untouched w' = sys.child.load_inode w' child_uri ≡ sys.child.load_inode w child_uri

  -- The child is a file, its inode was read, and in the state `v` that the link is dropped in, an
  -- object stands under the tombstone's key: the tombstone of this inode, or one that was there.
  abbrev pub Behind : W → Type 0
  Behind w' =
      (v : W) × (raw : R) × (state : S) × (is_dir ≡ false)
      × (sys.child.load_inode w child_uri ≡ ok (raw, state))
      × (((tag : Text) × (store.content v tombstone_key ≡ some (tombstone_body raw, tag)))
          ⊎ (sys.client.put_object w tombstone_key (tombstone_body raw) absent ≡ (v, refused)))
      × (w' ≡ drop_link sys bucket root_path others races clock ulids v child_uri)

  put-Untouched :
      (raw : R) (p : W × PutAnswer)
      → sys.client.put_object w tombstone_key (tombstone_body raw) absent ≡ p
      → Untouched p.0
  put-Untouched raw p puts =
      ap (λ r. sys.child.load_inode r.0 child_uri) (sym puts)
      ∙ quiet w tombstone_key (tombstone_body raw) child_uri

  emitted :
      (raw : R) (state : S) (p : W × PutAnswer)
      → sys.child.load_inode w child_uri ≡ ok (raw, state)
      → sys.client.put_object w tombstone_key (tombstone_body raw) absent ≡ p
      → (kind : Bool) → is_dir ≡ kind
      → Untouched (
          settle_emitted sys bucket root_path others races clock ulids child_uri kind
            (emit_put sys.client p))
        ⊎ Behind (
            settle_emitted sys bucket root_path others races clock ulids child_uri kind
              (emit_put sys.client p))
  unfolding settle_emitted emit_put
  emitted raw state (v, stored tag) loads puts true kind = inl (put-Untouched raw _ puts)
  emitted raw state (v, stored tag) loads puts false kind = inr (
    v,
    raw,
    state,
    kind,
    loads,
    inl (tag, (store.put_absent w v tombstone_key (tombstone_body raw) tag puts).1),
    refl,
  )
  emitted raw state (v, refused) loads puts true kind = inl (put-Untouched raw _ puts)
  emitted raw state (v, refused) loads puts false kind =
      inr (v, raw, state, kind, loads, inr puts, refl)
  emitted raw state (v, put_failed) loads puts kind is = inl (put-Untouched raw _ puts)

  loaded :
      (l : Result (R × S))
      → sys.child.load_inode w child_uri ≡ l
      → Untouched (
          settle_loaded sys bucket root_path others races clock ulids n w name uuid is_dir
            retention_until child_uri l)
        ⊎ Behind (
            settle_loaded sys bucket root_path others races clock ulids n w name uuid is_dir
              retention_until child_uri l)
  unfolding settle_loaded emit_scatter_event
  loaded (err e) loads = inl refl
  loaded (ok (raw, state)) loads = emitted raw state _ loads refl is_dir refl
