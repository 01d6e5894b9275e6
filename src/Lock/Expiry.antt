-- ===== src/Lock/Expiry.antt =====
-- Expired entries: dropped by `purge_expired`, moved by `renew`, and never read by `test`.
use hyperdir.Base.{
  ℕ, Bool, true, false, not, ◌&&◌, ◌||◌, List, [], ◌∷◌, ◌≡◌, refl, arith, any, retain, Text,
  text_eq, text_eq_iff, if◌then◌else◌, Bool-cases, inl, inr, ap, leb,
}
use hyperdir.Base.Int.{ℤ, lez, ltz}
use hyperdir.Lock.{
  LockKind, kind_eq, Entry, LockTable, purge_expired, release_owner, renew_entries, renew,
  entry_locks, locks, in_force, listed,
}

module _ (now later : ℤ) (o : Text) (k : LockKind) (p : ℕ) (order : lez now later ≡ true) where
  expired_locks :
      (e : Entry) → ltz now e.expire_ms ≡ false → entry_locks (in_force later) o k p e ≡ false
  unfolding entry_locks
  expired_locks e h = rw (past e.expire_ms h) (and_false (text_eq e.owner o) _ _ _)
    where
      past : (x : ℤ) → ltz now x ≡ false → ltz later x ≡ false
      past x q = ground arith

      and_false : (a b c d : Bool) → (a && b && c && d && false) ≡ false
      and_false a b c d = ground arith

  any-purge :
      (es : List Entry)
      → any (entry_locks (in_force later) o k p) (retain (λ e. ltz now e.expire_ms) es)
        ≡ any (entry_locks (in_force later) o k p) es
  unfolding retain any
  any-purge [] = refl
  any-purge (e ∷ es) = elim (Bool-cases (ltz now e.expire_ms)) [
    | inl fresh ↦ rw fresh (ap (λ b. entry_locks (in_force later) o k p e || b) (any-purge es))
    | inr stale ↦ rw (stale, expired_locks e stale) (any-purge es)
  ]

  -- Purging at `now` changes nothing that is in force at `now` or later.
  pub locks-purge_expired :
      (t : LockTable)
      → locks (in_force later) (purge_expired t now) o k p ≡ locks (in_force later) t o k p
  unfolding locks purge_expired
  locks-purge_expired t = any-purge t.entries

entry_locks_other :
    (live : ℤ → Bool) (o : Text) (k : LockKind) (p : ℕ) (e : Entry)
    → text_eq e.owner o ≡ false
    → entry_locks live o k p e ≡ false
unfolding entry_locks
entry_locks_other live o k p e h = rw h

module _ (now : ℤ) (o : Text) (k : LockKind) (p : ℕ) where
  entry_locks-fresh :
      (e : Entry)
      → ltz now e.expire_ms ≡ true
      → entry_locks listed o k p e ≡ entry_locks (in_force now) o k p e
  unfolding entry_locks
  entry_locks-fresh e h = rw h

  any-listed :
      (es : List Entry)
      → any (entry_locks listed o k p) (retain (λ e. ltz now e.expire_ms) es)
        ≡ any (entry_locks (in_force now) o k p) (retain (λ e. ltz now e.expire_ms) es)
  unfolding retain any
  any-listed [] = refl
  any-listed (e ∷ es) = elim (Bool-cases (ltz now e.expire_ms)) [
    | inl fresh ↦ rw (fresh, entry_locks-fresh e fresh, any-listed es)
    | inr stale ↦ rw (stale, any-listed es)
  ]

  -- A purged table lists only what is in force.
  pub listed-purge_expired :
      (t : LockTable)
      → locks listed (purge_expired t now) o k p ≡ locks (in_force now) (purge_expired t now) o k p
  unfolding locks purge_expired
  listed-purge_expired t = any-listed t.entries

module _ (live : ℤ → Bool) (o : Text) (k : LockKind) (p : ℕ) where
  any-retain_le :
      (keep : Entry → Bool) (es : List Entry)
      → any (entry_locks live o k p) (retain keep es) ≡ true
      → any (entry_locks live o k p) es ≡ true
  unfolding retain any
  any-retain_le keep [] h = h
  any-retain_le keep (e ∷ es) h = ground (arith, any-retain_le keep es)

  pub purge_expired-le :
      (t : LockTable) (now : ℤ)
      → locks live (purge_expired t now) o k p ≡ true
      → locks live t o k p ≡ true
  unfolding locks purge_expired
  purge_expired-le t now = any-retain_le _ t.entries

  any-release :
      (owner : Text) (es : List Entry)
      → any (entry_locks live o k p) (retain (λ e. not (text_eq e.owner owner)) es)
        ≡ (not (text_eq o owner) && any (entry_locks live o k p) es)
  unfolding retain any entry_locks
  any-release owner [] = ground arith
  any-release owner (e ∷ es) = ground (
    arith,
    any-release owner es,
    text_eq_iff e.owner owner,
    text_eq_iff e.owner o,
    text_eq_iff o owner,
  )

  -- After `release_owner` the owner holds nothing, and every other owner what it held.
  pub locks-release_owner :
      (t : LockTable) (owner : Text)
      → locks live (release_owner t owner).0 o k p ≡ (not (text_eq o owner) && locks live t o k p)
  unfolding locks release_owner
  locks-release_owner t owner = any-release owner t.entries

  entry_locks-expire :
      (e : Entry) (x : ℤ)
      → entry_locks live o k p (record e { expire_ms = x }) ≡ (entry_locks listed o k p e && live x)
  unfolding entry_locks
  entry_locks-expire e x =
      assoc (text_eq e.owner o) (kind_eq e.kind k) (leb e.start p) (leb p e.end) (live x)
    where
      assoc : (a b c d f : Bool) → (a && b && c && d && f) ≡ ((a && b && c && d && true) && f)
      assoc a b c d f = ground arith

  any-renew :
      (owner : Text) (expire : ℤ) (es : List Entry)
      → any (entry_locks live o k p) (renew_entries owner expire es).0 ≡ (
          if text_eq o owner
          then any (entry_locks listed o k p) es && live expire
          else any (entry_locks live o k p) es)
  unfolding renew_entries any
  any-renew owner expire [] = ground arith
  any-renew owner expire (e ∷ es) = ground (
    arith,
    any-renew owner expire es,
    entry_locks-expire e expire,
    entry_locks_other live o k p e,
    entry_locks_other listed o k p e,
    text_eq_iff e.owner owner,
    text_eq_iff e.owner o,
    text_eq_iff o owner,
  )

  -- After `renew` all that the table lists for the owner, expired or not, expires at `expire`, and
  -- nothing of any other owner changes.
  pub locks-renew :
      (t : LockTable) (owner : Text) (expire : ℤ)
      → locks live (renew t owner expire).0 o k p
        ≡ (if text_eq o owner then locks listed t o k p && live expire else locks live t o k p)
  unfolding locks renew
  locks-renew t owner expire = any-renew owner expire t.entries
