-- ===== src/Lock/Service/Atomic.antt =====
-- A granted lock request is one step: nothing that other clients wrote is lost.
use hyperdir.Base.{
  ℕ, zero, suc, Bool, true, false, ◌&&◌, ◌≡◌, refl, sym, ◌∙◌, ap, ◌⊎◌, inl, inr, Option, none, some,
  if◌then◌else◌, Text, Result, ok, err,
}
use hyperdir.Base.Int.{ℤ}
use hyperdir.Object.{
  Condition, GetAnswer, body, no_such_key, get_failed, PutAnswer, stored, refused, put_failed,
  Client, IsStore,
}
use hyperdir.Lock.{
  LockKind, unlock, kind_eq, Conflict, SetLkOutcome, granted, LockTable, default, set,
}
use hyperdir.Lock.Codec.{encode, decode}
use hyperdir.Lock.Service.{
  expiry, is_none, PutOutcome, put_ok, retry, loaded, put_outcome, load_table, condition_of,
  cas_put, after_put, setlk_decided, setlk_loaded, setlk_from, fs_setlk, lock_occ_retries,
}

-- The table that an object's body stands for, the empty one where there is no object.
abbrev pub table_of : Option (Text × Text) → LockTable
table_of none = default
table_of (some (bytes, _)) = decode bytes

pub after_put-ok :
    {W A : Type 0} (a b : A) (p : W × Result PutOutcome) (again : W → W × Result A) (w' : W)
    → after_put a p again ≡ (w', ok b)
    → (p ≡ (w', ok put_ok)) ⊎ ((v : W) × (again v ≡ (w', ok b)))
unfolding after_put
after_put-ok a b (w, ok put_ok) again w' h = inl (cc)
after_put-ok a b (w, ok retry) again w' h = inr (w, h)
after_put-ok a b (w, err e) again w' h = cc

pub loaded_from :
    (g : GetAnswer) (table : LockTable) (etag : Option Text)
    → loaded g ≡ ok (table, etag)
    → ((g ≡ no_such_key) × (table ≡ default) × (etag ≡ none))
      ⊎ ((bytes : Text) × (tag : Text) × (g ≡ body bytes tag)
          × (decode bytes ≡ table)
          × (etag ≡ some tag))
unfolding loaded
loaded_from (body bytes tag) table etag h = inr (bytes, tag, refl, cc, cc)
loaded_from no_such_key table etag h = inl (refl, cc, cc)
loaded_from get_failed table etag h = cc

stored_by :
    {W : Type 0} (p : W × PutAnswer) (w' : W)
    → put_outcome p ≡ (w', ok put_ok)
    → (tag : Text) × (p ≡ (w', stored tag))
unfolding put_outcome
stored_by (w, stored tag) w' h = (tag, cc)
stored_by (w, refused) w' h = cc
stored_by (w, put_failed) w' h = cc

module _ {W : Type 0} (client : Client W) (store : IsStore client) (key : Text) where
  -- A put that the store took: where it took place, and what it left.
  abbrev pub Written : W → W → Text → Type 0
  Written v w' bytes =
      (condition : Condition) × (tag : Text) × (client.put_object v key bytes condition
        ≡ (w', stored tag))
      × (store.content w' key ≡ some (bytes, tag))

  -- A put on the ETag of a load finds the table that was loaded.
  pub cas_put-Written :
      (w v w' : W) (table : LockTable) (etag : Option Text) (bytes : Text)
      → load_table client w key ≡ ok (table, etag)
      → cas_put client v key bytes etag ≡ (w', ok put_ok)
      → (table_of (store.content v key) ≡ table) × Written v w' bytes
  unfolding load_table cas_put condition_of
  cas_put-Written w v w' table etag bytes load put =
      elim (loaded_from (client.get_object w key) table etag load) [
        | inl (missing, is_default, is_new) ↦
            let (tag, done) =
              stored_by (client.put_object v key bytes (condition_of etag)) w' put in
            let (gone, left) =
              store.put_absent v w' key bytes tag
                (ap (λ o. client.put_object v key bytes (condition_of o)) (sym is_new) ∙ done) in
            (ap table_of gone ∙ sym is_default, (condition_of etag, tag, done, left))
        | inr (old, old_tag, found, is_old, is_etag) ↦
            let (tag, done) =
              stored_by (client.put_object v key bytes (condition_of etag)) w' put in
            let (there, same, left) =
              store.put_matching v w' key bytes old_tag tag
                (ap (λ o. client.put_object v key bytes (condition_of o)) (sym is_etag) ∙ done) in
            (
              ap table_of same
                  ∙ ap decode (
                      store.etag_names v w key there old old_tag same
                        (store.get_body w key old old_tag found))
                  ∙ is_old,
              (condition_of etag, tag, done, left),
            )
      ]

  module _ (others : ℕ → W → W) (now : ℕ → ℤ) (owner : Text) (kind : LockKind)
      (first last pid ttl_ms : ℕ) where
    -- `set` on the table of one moment `v`, at the clock of the attempt `m`, and its put at `v`.
    abbrev pub OneStep : W → Type 0
    OneStep w' =
        (m : ℕ) × (v : W) × (t : LockTable) × (set (table_of (store.content v key)) owner kind first
            last pid (expiry (now m) ttl_ms) (now m)
          ≡ (t, none))
        × Written v w' (encode t)

    decided_step :
        (n : ℕ) (w w' : W) (again : W → W × Result SetLkOutcome) (table : LockTable)
        (etag : Option Text) (d : LockTable × Option Conflict)
        → load_table client w key ≡ ok (table, etag)
        → set table owner kind first last pid (expiry (now n) ttl_ms) (now n) ≡ d
        → setlk_decided client others now key owner n w again etag d ≡ (w', ok granted)
        → OneStep w' ⊎ ((v : W) × (again v ≡ (w', ok granted)))
    unfolding setlk_decided
    decided_step n w w' again table etag (t, some c) load is_set h = cc
    decided_step n w w' again table etag (t, none) load is_set h =
        elim (after_put-ok granted granted _ again w' h) [
          | inl put ↦
              let (same, written) =
                cas_put-Written w (others n w) w' table etag (encode t) load put in
              inl (
                n,
                others n w,
                t,
                ap (λ x. set x owner kind first last pid (expiry (now n) ttl_ms) (now n)) same
                    ∙ is_set,
                written,
              )
          | inr (v, next) ↦ inr (v, next)
        ]

    loaded_step :
        (n : ℕ) (w w' : W) (again : W → W × Result SetLkOutcome)
        (l : Result (LockTable × Option Text))
        → kind_eq kind unlock ≡ false
        → load_table client w key ≡ l
        → setlk_loaded client others now key owner n w again kind first last pid ttl_ms l
          ≡ (w', ok granted)
        → OneStep w' ⊎ ((v : W) × (again v ≡ (w', ok granted)))
    unfolding setlk_loaded
    loaded_step n w w' again (err e) lock load h = cc
    loaded_step n w w' again (ok (table, etag)) lock load h =
        decided_step n w w' again table etag
          (set table owner kind first last pid (expiry (now n) ttl_ms) (now n)) load refl
          (sym (skip _ _ (kind_eq kind unlock) lock) ∙ h)
      where
        skip :
            {A : Type 0} (x y : A) (b : Bool) → b ≡ false → (if b && is_none etag then x else y) ≡ y
        skip x y true q = cc
        skip x y false q = refl

    granted_from :
        (retries n : ℕ) (w w' : W)
        → kind_eq kind unlock ≡ false
        → setlk_from client others now key owner retries n w kind first last pid ttl_ms
          ≡ (w', ok granted)
        → OneStep w'
    unfolding setlk_from
    granted_from zero n w w' lock h = cc
    granted_from (suc retries) n w w' lock h =
        elim (loaded_step n w w' _ (load_table client w key) lock refl h) [
          | inl step ↦ step
          | inr (v, next) ↦ granted_from retries (suc n) v w' lock next
        ]

    -- On a store with conditional writes, whatever other clients do between the calls: a lock that
    -- `fs_setlk` grants, other than an unlock, is `set` on the table that stood in the store at
    -- one moment, at the clock of one attempt, and the put of the text of the table that `set`
    -- answers took place at that moment.
    pub fs_setlk-granted :
        (w w' : W)
        → kind_eq kind unlock ≡ false
        → fs_setlk client others now key owner w kind first last pid ttl_ms ≡ (w', ok granted)
        → OneStep w'
    unfolding fs_setlk
    fs_setlk-granted w w' lock h = granted_from lock_occ_retries 0 w w' lock h
