-- ===== src/Lease/Holder.antt =====
-- Who holds the lease: it is created where there is none, or taken over from a holder past its
-- expiry, and a late release leaves the lease of the next holder.
use hyperdir.Base.{
  ℕ, Bool, true, false, ◌≡◌, ◌≢◌, refl, sym, ◌∙◌, ap, ◌⊎◌, inl, inr, none, some, if◌then◌else◌,
  Text, Result, ok, err, resource_busy,
}
use hyperdir.Base.Int.{ℤ, ltz}
use hyperdir.Object.{
  Condition, absent, matching, GetAnswer, body, no_such_key, get_failed, PutAnswer, stored, refused,
  put_failed, Client, IsStore,
}
use hyperdir.Lease.{
  CompactLeaseGuard, format_lease_body, parse_lease_body, lease_expiry, guard, taken,
  take_over_parsed, take_over_read, try_take_over_compact_lease, created, acquire_compact_lease,
  release_compact_lease,
}

module _ {W : Type 0} (client : Client W) (store : IsStore client) (others : ℕ → W → W)
    (lease_key holder_id : Text) (ttl_ms : ℕ) (now_ms : ℤ) where
  -- The lease object after a success is the one that the guard names.
  abbrev pub Holds : W → CompactLeaseGuard → Type 0
  Holds w' g =
      (store.content w' lease_key
        ≡ some (format_lease_body holder_id (lease_expiry now_ms ttl_ms), g.etag))
      × (g ≡ guard client others lease_key holder_id ttl_ms now_ms g.etag)

  -- At the moment `v`, there was no lease, or one past its expiry.
  abbrev pub Free : W → Type 0
  Free v =
      (store.content v lease_key ≡ none)
      ⊎ ((bytes : Text) × (etag : Text) × (holder : Text) × (expires_at : ℤ) × (store.content v
              lease_key
            ≡ some (bytes, etag))
          × (parse_lease_body bytes ≡ ok (holder, expires_at))
          × (ltz now_ms expires_at ≡ false))

  -- The put of the guard's lease, at a moment at which the lease was free.
  abbrev pub Acquired : W → CompactLeaseGuard → Type 0
  Acquired w' g =
      (v : W) × (condition : Condition) × (client.put_object v lease_key
          (format_lease_body holder_id (lease_expiry now_ms ttl_ms)) condition
        ≡ (w', stored g.etag))
      × Free v
      × Holds w' g

  taken_by :
      (p : W × PutAnswer) (w' : W) (g : CompactLeaseGuard)
      → taken client others lease_key holder_id ttl_ms now_ms p ≡ (w', ok g)
      → (p ≡ (w', stored g.etag))
        × (g ≡ guard client others lease_key holder_id ttl_ms now_ms g.etag)
  unfolding taken
  taken_by (w, stored etag) w' g h = (cc, cc)
  taken_by (w, refused) w' g h = cc
  taken_by (w, put_failed) w' g h = cc

  not_fresh :
      (b : Bool) (w w' : W) (r : W × Result CompactLeaseGuard) (g : CompactLeaseGuard)
      → (if b then (w, err resource_busy) else r) ≡ (w', ok g)
      → (b ≡ false) × (r ≡ (w', ok g))
  not_fresh true w w' r g h = cc
  not_fresh false w w' r g h = (refl, h)

  take_over_parsed-Acquired :
      (w w' : W) (g : CompactLeaseGuard) (bytes etag : Text) (p : Result (Text × ℤ))
      → client.get_object w lease_key ≡ body bytes etag
      → parse_lease_body bytes ≡ p
      → take_over_parsed client others lease_key holder_id ttl_ms now_ms w etag p ≡ (w', ok g)
      → Acquired w' g
  unfolding take_over_parsed
  take_over_parsed-Acquired w w' g bytes etag (err e) got parsed h = cc
  take_over_parsed-Acquired w w' g bytes etag (ok (holder, expires_at)) got parsed h =
      let (expired, took) = not_fresh (ltz now_ms expires_at) w w' _ g h in
      let (put, named) = taken_by _ w' g took in
      let (old, stood, left) = store.put_matching (others 1 w) w' lease_key _ etag g.etag put in
      let same =
        store.etag_names (others 1 w) w lease_key old bytes etag stood
          (store.get_body w lease_key bytes etag got) in
      (
        others 1 w,
        matching etag,
        put,
        inr (old, etag, holder, expires_at, stood, ap parse_lease_body same ∙ parsed, expired),
        (left, named),
      )

  take_over_read-Acquired :
      (w w' : W) (g : CompactLeaseGuard) (a : GetAnswer)
      → client.get_object w lease_key ≡ a
      → take_over_read client others lease_key holder_id ttl_ms now_ms w a ≡ (w', ok g)
      → Acquired w' g
  unfolding take_over_read
  take_over_read-Acquired w w' g (body bytes etag) got h =
      take_over_parsed-Acquired w w' g bytes etag (parse_lease_body bytes) got refl h
  take_over_read-Acquired w w' g no_such_key got h = cc
  take_over_read-Acquired w w' g get_failed got h = cc

  created-Acquired :
      (w w' : W) (g : CompactLeaseGuard) (p : W × PutAnswer)
      → client.put_object w lease_key
          (format_lease_body holder_id (lease_expiry now_ms ttl_ms))
          absent
        ≡ p
      → created client others lease_key holder_id ttl_ms now_ms p ≡ (w', ok g)
      → Acquired w' g
  unfolding created try_take_over_compact_lease taken
  created-Acquired w w' g (u, stored etag) is_put h =
      let (took, named) = taken_by (u, stored etag) w' g h in
      let put = is_put ∙ took in
      let (none_before, left) = store.put_absent w w' lease_key _ g.etag put in
      (w, absent, put, inl none_before, (left, named))
  created-Acquired w w' g (u, refused) is_put h =
      take_over_read-Acquired (others 0 u) w' g (client.get_object (others 0 u) lease_key) refl h
  created-Acquired w w' g (u, put_failed) is_put h = cc

  -- On a store with conditional writes, whatever other clients do between the calls: whoever
  -- acquires the lease put it at a moment at which there was none, or one whose expiry had passed
  -- by the clock that the caller read, and the object that this put left is the one that the guard
  -- names.
  pub acquire_compact_lease-Acquired :
      (w w' : W) (g : CompactLeaseGuard)
      → acquire_compact_lease client others lease_key holder_id ttl_ms now_ms w ≡ (w', ok g)
      → Acquired w' g
  unfolding acquire_compact_lease
  acquire_compact_lease-Acquired w w' g h = created-Acquired w w' g _ refl h

  -- On a store with conditional writes, a guard of the same key that is released after the lease
  -- was acquired anew under another ETag leaves the new lease in place.
  pub release_compact_lease-late :
      (w w' : W) (late g : CompactLeaseGuard)
      → acquire_compact_lease client others lease_key holder_id ttl_ms now_ms w ≡ (w', ok g)
      → late.lease_key ≡ lease_key
      → g.etag ≢ late.etag
      → store.content (release_compact_lease client w' late).0 lease_key
        ≡ some (format_lease_body holder_id (lease_expiry now_ms ttl_ms), g.etag)
  unfolding release_compact_lease
  release_compact_lease-late w w' late g h same_key differ =
      let (v, condition, put, free, (left, named)) = acquire_compact_lease-Acquired w w' g h in
      store.delete_matching w' (client.delete_object w' late.lease_key (matching late.etag)).0
        lease_key (format_lease_body holder_id (lease_expiry now_ms ttl_ms)) g.etag late.etag
        (client.delete_object w' late.lease_key (matching late.etag)).1 left differ
        (ap (λ k. client.delete_object w' k (matching late.etag)) (sym same_key))
