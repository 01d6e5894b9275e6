-- ===== src/Lock/Service.antt =====
-- The S3 binding of the lock engine (src/lock.rs): the optimistic read-modify-write of the `_lock`
-- object. `others n` is what other clients do to the store between the load and the put of the
-- attempt `n`, and `now n` is the clock that this attempt reads. The functions take the object's key,
-- which the code makes by `lock_key` from the layout, the uuid and the kind.
pub mod Atomic
pub mod Owner
use hyperdir.Base.{
  ℕ, zero, suc, ◌+◌, Bool, true, false, not, ◌&&◌, Option, none, some, ◌++◌, if◌then◌else◌, Text,
  codes, resource_busy, other, Result, ok, err, ◌>>=◌,
}
use hyperdir.Base.Int.{ℤ, saturating_add}
use hyperdir.Bodies.{of_bits}
use hyperdir.Object.{
  Condition, absent, matching, GetAnswer, PutAnswer, body, no_such_key, get_failed, stored, refused,
  put_failed, Client,
}
use hyperdir.Layout.{HyperDirLayout, dir_key, file_key}
use hyperdir.Lock.{
  LockKind, unlock, kind_eq, Conflict, SetLkOutcome, granted, conflict, LockTable, default, test,
  set, release_owner, renew,
}
use hyperdir.Lock.Codec.{encode, decode}

abbrev pub lock_object : Text
lock_object = codes "_lock"

abbrev pub lock_occ_retries : ℕ
lock_occ_retries = 8

unfoldable pub lock_key : HyperDirLayout → Text → Bool → Text
unfolding dir_key file_key
lock_key layout uuid is_dir =
    (if is_dir then dir_key layout uuid else file_key layout uuid) ++ codes "/" ++ lock_object

pub data PutOutcome : Type 0 where
  put_ok retry : PutOutcome

-- `now.saturating_add(ttl_ms as i64)`
unfoldable pub expiry : ℤ → ℕ → ℤ
unfolding of_bits saturating_add
expiry now_ms ttl_ms = saturating_add now_ms (of_bits ttl_ms)

abbrev pub is_none : Option Text → Bool
is_none none = true
is_none (some _) = false

-- The table and the ETag of what was read.
unfoldable pub loaded : GetAnswer → Result (LockTable × Option Text)
loaded (body bytes etag) = ok (decode bytes, some etag)
loaded no_such_key = ok (default, none)
loaded get_failed = err other

-- `if_match` on an ETag, or create-once.
unfoldable pub condition_of : Option Text → Condition
condition_of none = absent
condition_of (some etag) = matching etag

unfoldable pub put_outcome : {W : Type 0} → W × PutAnswer → W × Result PutOutcome
put_outcome (w, stored _) = (w, ok put_ok)
put_outcome (w, refused) = (w, ok retry)
put_outcome (w, put_failed) = (w, err other)

module _ {W : Type 0} (client : Client W) where
  unfoldable pub load_table : W → Text → Result (LockTable × Option Text)
  unfolding loaded
  load_table w key = loaded (client.get_object w key)

  unfoldable pub cas_put : W → Text → Text → Option Text → W × Result PutOutcome
  unfolding condition_of put_outcome
  cas_put w key bytes etag = put_outcome (client.put_object w key bytes (condition_of etag))

  unfoldable pub fs_getlk : W → ℤ → Text → Text → LockKind → ℕ → ℕ → Result (Option Conflict)
  unfolding load_table
  fs_getlk w now_ms key owner kind first last = do
    (table, _) ← load_table w key
    ok (test table owner kind first last now_ms)

-- What follows the put: an answer to the caller, or another attempt.
unfoldable pub after_put :
    {W A : Type 0} → A → W × Result PutOutcome → (W → W × Result A) → W × Result A
after_put a (w, ok put_ok) again = (w, ok a)
after_put a (w, ok retry) again = again w
after_put a (w, err e) again = (w, err e)

module _ {W : Type 0} (client : Client W) (others : ℕ → W → W) (now : ℕ → ℤ)
    (key owner : Text) where
  -- The attempt `n` of `fs_setlk` after `set` has answered; `again` makes the next attempt.
  unfoldable pub setlk_decided :
      ℕ
      → W
      → (W → W × Result SetLkOutcome)
      → Option Text
      → LockTable × Option Conflict
      → W × Result SetLkOutcome
  unfolding after_put
  setlk_decided n w again etag (table, some c) = (w, ok (conflict c))
  setlk_decided n w again etag (table, none) =
      after_put granted (cas_put client (others n w) key (encode table) etag) again

  -- The attempt after the load.
  unfoldable pub setlk_loaded :
      ℕ
      → W
      → (W → W × Result SetLkOutcome)
      → LockKind
      → ℕ
      → ℕ
      → ℕ
      → ℕ
      → Result (LockTable × Option Text)
      → W × Result SetLkOutcome
  unfolding setlk_decided
  setlk_loaded n w again kind first last pid ttl_ms (err e) = (w, err e)
  setlk_loaded n w again kind first last pid ttl_ms (ok (table, etag)) =
      if kind_eq kind unlock && is_none etag
      then (w, ok granted)
      else setlk_decided n w again etag
          (set table owner kind first last pid (expiry (now n) ttl_ms) (now n))

  -- The loop of `fs_setlk`, from the attempt `n` on, with `retries` left.
  unfoldable pub setlk_from : ℕ → ℕ → W → LockKind → ℕ → ℕ → ℕ → ℕ → W × Result SetLkOutcome
  unfolding setlk_loaded
  setlk_from zero n w kind first last pid ttl_ms = (w, err resource_busy)
  setlk_from (suc retries) n w kind first last pid ttl_ms =
      setlk_loaded n w (λ w'. setlk_from retries (suc n) w' kind first last pid ttl_ms) kind first
        last pid ttl_ms (load_table client w key)

  unfoldable pub fs_setlk : W → LockKind → ℕ → ℕ → ℕ → ℕ → W × Result SetLkOutcome
  fs_setlk w kind first last pid ttl_ms = setlk_from lock_occ_retries 0 w kind first last pid ttl_ms

  -- The attempt of `fs_unlock_owner` after the load; `write_back` serves the renewal too.
  unfoldable pub write_back :
      ℕ → W → (W → W × Result (Unit {0})) → Text → LockTable × Bool → W × Result (Unit {0})
  unfolding after_put
  write_back n w again etag (table, false) = (w, ok tt)
  write_back n w again etag (table, true) =
      after_put tt (cas_put client (others n w) key (encode table) (some etag)) again

  unfoldable pub unlock_loaded :
      ℕ → W → (W → W × Result (Unit {0})) → Result (LockTable × Option Text) → W × Result (Unit {0})
  unfolding write_back
  unlock_loaded n w again (err e) = (w, err e)
  unlock_loaded n w again (ok (table, none)) = (w, ok tt)
  unlock_loaded n w again (ok (table, some etag)) =
      write_back n w again etag (release_owner table owner)

  -- The loop of `fs_unlock_owner`.
  unfoldable pub unlock_owner_from : ℕ → ℕ → W → W × Result (Unit {0})
  unfolding unlock_loaded
  unlock_owner_from zero n w = (w, err resource_busy)
  unlock_owner_from (suc retries) n w =
      unlock_loaded n w (λ w'. unlock_owner_from retries (suc n) w') (load_table client w key)

  unfoldable pub fs_unlock_owner : W → W × Result (Unit {0})
  fs_unlock_owner w = unlock_owner_from lock_occ_retries 0 w

  -- The attempt of `fs_lock_renew` after the load: it writes what `renew` answers as the unlock
  -- writes what the release answers.
  unfoldable pub renew_loaded :
      ℕ
      → W
      → (W → W × Result (Unit {0}))
      → ℕ
      → Result (LockTable × Option Text)
      → W × Result (Unit {0})
  unfolding write_back
  renew_loaded n w again ttl_ms (err e) = (w, err e)
  renew_loaded n w again ttl_ms (ok (table, none)) = (w, ok tt)
  renew_loaded n w again ttl_ms (ok (table, some etag)) =
      write_back n w again etag (renew table owner (expiry (now n) ttl_ms))

  -- The loop of `fs_lock_renew`.
  unfoldable pub lock_renew_from : ℕ → ℕ → W → ℕ → W × Result (Unit {0})
  unfolding renew_loaded
  lock_renew_from zero n w ttl_ms = (w, err resource_busy)
  lock_renew_from (suc retries) n w ttl_ms =
      renew_loaded n w (λ w'. lock_renew_from retries (suc n) w' ttl_ms) ttl_ms
        (load_table client w key)

  unfoldable pub fs_lock_renew : W → ℕ → W × Result (Unit {0})
  fs_lock_renew w ttl_ms = lock_renew_from lock_occ_retries 0 w ttl_ms
