-- ===== src/Lock/Service/Owner.antt =====
-- The release and the renewal of an owner's locks are each one step on the table in the store.
use hyperdir.Base.{
  ℕ, zero, suc, Bool, true, false, ◌≡◌, refl, sym, ◌∙◌, ap, ◌⊎◌, inl, inr, Option, none, some, Text,
  Result, ok, err,
}
use hyperdir.Base.Int.{ℤ}
use mathlib.Core.Path.{subst}
use hyperdir.Object.{Client, IsStore}
use hyperdir.Lock.{LockTable, default, release_owner, renew}
use hyperdir.Lock.Codec.{encode}
use hyperdir.Lock.Service.{
  expiry, load_table, cas_put, write_back, unlock_loaded, unlock_owner_from, fs_unlock_owner,
  renew_loaded, lock_renew_from, fs_lock_renew, lock_occ_retries,
}
use hyperdir.Lock.Service.Atomic.{table_of, after_put-ok, loaded_from, Written, cas_put-Written}

release_nothing : (owner : Text) → (release_owner default owner).1 ≡ false
unfolding release_owner
release_nothing owner = refl

renew_nothing : (owner : Text) (expires : ℤ) → (renew default owner expires).1 ≡ false
unfolding renew
renew_nothing owner expires = refl

module _ {W : Type 0} (client : Client W) (store : IsStore client) (key : Text) (others : ℕ → W → W)
    (now : ℕ → ℤ) (owner : Text) where
  -- A change of the table took place in one step: it had nothing to change at the end, or the put of
  -- what it answers took place at a moment `v`.
  abbrev pub Changed : (LockTable → LockTable × Bool) → W → Type 0
  Changed change w' =
      ((change (table_of (store.content w' key))).1 ≡ false)
      ⊎ ((v : W) × Written client store key v w'
            (encode (change (table_of (store.content v key))).0))

  -- The table that a load shows.
  table_seen :
      (w : W) (table : LockTable) (etag : Option Text)
      → load_table client w key ≡ ok (table, etag)
      → table_of (store.content w key) ≡ table
  unfolding load_table
  table_seen w table etag load = elim (loaded_from (client.get_object w key) table etag load) [
    | inl (missing, is_default, _) ↦ ap table_of (store.get_none w key missing) ∙ sym is_default
    | inr (bytes, tag, found, is_table, _) ↦
        ap table_of (store.get_body w key bytes tag found) ∙ is_table
  ]

  -- No object: there is nothing to change.
  nothing-Changed :
      (change : LockTable → LockTable × Bool) (w w' : W) (table : LockTable)
      → load_table client w key ≡ ok (table, none)
      → (change default).1 ≡ false
      → w ≡ w'
      → Changed change w'
  unfolding load_table
  nothing-Changed change w w' table load idle same =
      let is_default : table ≡ default =
        elim (loaded_from (client.get_object w key) table none load) [
          | inl (_, is_default, _) ↦ is_default
          | inr (bytes, tag, _, _, no_etag) ↦ cc
        ] in
      inl (
        ap (λ u. (change (table_of (store.content u key))).1) (sym same)
        ∙ ap (λ x. (change x).1) (table_seen w table none load ∙ is_default)
        ∙ idle)

  same_state : (w w' : W) → ◌≡◌ {A = W × Result (Unit {0})} (w, ok tt) (w', ok tt) → w ≡ w'
  same_state w w' e = cc

  write_back-Changed :
      (change : LockTable → LockTable × Bool) (n : ℕ) (w w' : W) (again : W → W × Result (Unit {0}))
      (table : LockTable) (etag : Text) (d : LockTable × Bool)
      → load_table client w key ≡ ok (table, some etag)
      → change table ≡ d
      → write_back client others now key owner n w again etag d ≡ (w', ok tt)
      → Changed change w' ⊎ ((v : W) × (again v ≡ (w', ok tt)))
  unfolding write_back
  write_back-Changed change n w w' again table etag (t, false) load is_change h = inl (
      inl (
        ap (λ u. (change (table_of (store.content u key))).1) (sym (same_state w w' h))
        ∙ ap (λ x. (change x).1) (table_seen w table (some etag) load)
        ∙ ap (λ d. d.1) is_change))
  write_back-Changed change n w w' again table etag (t, true) load is_change h =
      elim (after_put-ok tt tt (cas_put client (others n w) key (encode t) (some etag)) again w'
        h) [
          | inl put ↦
              let (same, written) =
                cas_put-Written client store key w (others n w) w' table (some etag) (encode t) load
                  put in
              let answer : (change (table_of (store.content (others n w) key))).0 ≡ t =
                ap (λ x. (change x).0) same ∙ ap (λ d. d.0) is_change in
              inl (
                inr (
                  others n w,
                  subst (λ x. Written client store key (others n w) w' (encode x)) (sym answer)
                      written,
                ))
          | inr next ↦ inr next
        ]

  unlock_loaded-Changed :
      (n : ℕ) (w w' : W) (again : W → W × Result (Unit {0})) (l : Result (LockTable × Option Text))
      → load_table client w key ≡ l
      → unlock_loaded client others now key owner n w again l ≡ (w', ok tt)
      → Changed (λ t. release_owner t owner) w' ⊎ ((v : W) × (again v ≡ (w', ok tt)))
  unfolding unlock_loaded
  unlock_loaded-Changed n w w' again (err e) load h = cc
  unlock_loaded-Changed n w w' again (ok (table, none)) load h = inl (
      nothing-Changed (λ t. release_owner t owner) w w' table load (release_nothing owner)
        (same_state w w' h))
  unlock_loaded-Changed n w w' again (ok (table, some etag)) load h =
      write_back-Changed (λ t. release_owner t owner) n w w' again table etag
        (release_owner table owner) load refl h

  unlocked_from :
      (retries n : ℕ) (w w' : W)
      → unlock_owner_from client others now key owner retries n w ≡ (w', ok tt)
      → Changed (λ t. release_owner t owner) w'
  unfolding unlock_owner_from
  unlocked_from zero n w w' h = cc
  unlocked_from (suc retries) n w w' h =
      elim (unlock_loaded-Changed n w w' _ (load_table client w key) refl h) [
        | inl done ↦ done
        | inr (v, next) ↦ unlocked_from retries (suc n) v w' next
      ]

  renew_loaded-Changed :
      (n : ℕ) (w w' : W) (again : W → W × Result (Unit {0})) (ttl_ms : ℕ)
      (l : Result (LockTable × Option Text))
      → load_table client w key ≡ l
      → renew_loaded client others now key owner n w again ttl_ms l ≡ (w', ok tt)
      → Changed (λ t. renew t owner (expiry (now n) ttl_ms)) w'
        ⊎ ((v : W) × (again v ≡ (w', ok tt)))
  unfolding renew_loaded
  renew_loaded-Changed n w w' again ttl_ms (err e) load h = cc
  renew_loaded-Changed n w w' again ttl_ms (ok (table, none)) load h = inl (
      nothing-Changed (λ t. renew t owner (expiry (now n) ttl_ms)) w w' table load
        (renew_nothing owner (expiry (now n) ttl_ms)) (same_state w w' h))
  renew_loaded-Changed n w w' again ttl_ms (ok (table, some etag)) load h =
      write_back-Changed (λ t. renew t owner (expiry (now n) ttl_ms)) n w w' again table etag
        (renew table owner (expiry (now n) ttl_ms)) load refl h

  renewed_from :
      (retries n : ℕ) (w w' : W) (ttl_ms : ℕ)
      → lock_renew_from client others now key owner retries n w ttl_ms ≡ (w', ok tt)
      → (m : ℕ) × Changed (λ t. renew t owner (expiry (now m) ttl_ms)) w'
  unfolding lock_renew_from
  renewed_from zero n w w' ttl_ms h = cc
  renewed_from (suc retries) n w w' ttl_ms h =
      elim (renew_loaded-Changed n w w' _ ttl_ms (load_table client w key) refl h) [
        | inl done ↦ (n, done)
        | inr (v, next) ↦ renewed_from retries (suc n) v w' ttl_ms next
      ]

  -- On a store with conditional writes, whatever other clients do between the calls: when
  -- `fs_unlock_owner` succeeds, then either `release_owner` finds nothing to remove in the table that
  -- the store holds at the end, or the last put took place on the table of one moment, and wrote the
  -- text of what `release_owner` answers on that table.
  pub fs_unlock_owner-Changed :
      (w w' : W)
      → fs_unlock_owner client others now key owner w ≡ (w', ok tt)
      → Changed (λ t. release_owner t owner) w'
  unfolding fs_unlock_owner
  fs_unlock_owner-Changed w w' h = unlocked_from lock_occ_retries 0 w w' h

  -- On a store with conditional writes, whatever other clients do between the calls: when
  -- `fs_lock_renew` succeeds, then for the clock of one attempt, either `renew` finds nothing to
  -- extend in the table that the store holds at the end, or the last put took place on the table of
  -- one moment, and wrote the text of what `renew` answers on that table.
  pub fs_lock_renew-Changed :
      (w w' : W) (ttl_ms : ℕ)
      → fs_lock_renew client others now key owner w ttl_ms ≡ (w', ok tt)
      → (m : ℕ) × Changed (λ t. renew t owner (expiry (now m) ttl_ms)) w'
  unfolding fs_lock_renew
  fs_lock_renew-Changed w w' ttl_ms h = renewed_from lock_occ_retries 0 w w' ttl_ms h
