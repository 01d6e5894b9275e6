-- ===== src/Lock/Grant.antt =====
-- What `set` does to the table: when it grants a lock, unlocks, or refuses.
use hyperdir.Base.{
  ℕ, Bool, true, false, not, ◌&&◌, ◌||◌, Option, none, some, [], ◌∷◌, ◌++◌, ◌≡◌, refl, arith, any,
  any-append, leb, Text, text_eq, text_eq_symm, if◌then◌else◌, Option-cases, inl, inr, Bool-cases,
  ◌∙◌, sym, ap,
}
use mathlib.Core.Option.{some-ne-none}
use hyperdir.Base.Int.{ℤ, lez, ltz}
use hyperdir.Lock.{
  LockKind, unlock, kind_eq, Conflict, Entry, LockTable, purge_expired, test, remove_range, set,
  new_entry, entry_locks, locks, in_force,
}
use hyperdir.Lock.Range.{locks-remove_range}
use hyperdir.Lock.Expiry.{locks-purge_expired}
use hyperdir.Lock.Conflicts.{kind_eq_sound, Blocker, test-Blocker}

-- The three ways that `set` goes.
module _ (t : LockTable) (owner : Text) (start end pid : ℕ) (expire now : ℤ) where
  pub set_unlock :
      set t owner unlock start end pid expire now
      ≡ (remove_range (purge_expired t now) owner start end, none)
  unfolding set
  set_unlock = refl

  module _ (kind : LockKind) (locking : kind_eq kind unlock ≡ false) where
    pub set_refuse :
        (c : Conflict)
        → test (purge_expired t now) owner kind start end now ≡ some c
        → set t owner kind start end pid expire now ≡ (purge_expired t now, some c)
    unfolding set
    set_refuse c h = rw (locking, h)

    pub set_place :
        test (purge_expired t now) owner kind start end now ≡ none
        → set t owner kind start end pid expire now ≡ (
          record {
            entries =
                (remove_range (purge_expired t now) owner start end).entries
                ++ new_entry owner kind start end pid expire ∷ [];
          },
          none,
        )
    unfolding set
    set_place h = rw (locking, h)

locks-push :
    (live : ℤ → Bool) (t : LockTable) (new : Entry) (o : Text) (k : LockKind) (p : ℕ)
    → locks live (record { entries = t.entries ++ new ∷ [] }) o k p
      ≡ (locks live t o k p || entry_locks live o k p new)
unfolding locks any
locks-push live t new o k p =
    any-append (entry_locks live o k p) t.entries (new ∷ [])
    ∙ or_false (any (entry_locks live o k p) t.entries) (entry_locks live o k p new)
  where
    or_false : (a b : Bool) → (a || (b || false)) ≡ (a || b)
    or_false a b = ground arith

-- The bytes of `owner` that a call of `set` is about.
abbrev pub concerns : Text → ℕ → ℕ → Text → ℕ → Bool
concerns owner start end o p = text_eq o owner && leb start p && leb p end

module _ (t : LockTable) (owner : Text) (kind : LockKind) (start end pid : ℕ) (expire now : ℤ)
    (live : ℤ → Bool) (o : Text) (k : LockKind) (p : ℕ) where
  entry_locks-entry :
      entry_locks live o k p (new_entry owner kind start end pid expire)
      ≡ (concerns owner start end o p && (kind_eq kind k && live expire))
  unfolding entry_locks
  entry_locks-entry =
      rw (text_eq_symm owner o)
        (shuffle (text_eq o owner) (kind_eq kind k) (leb start p) (leb p end) (live expire))
    where
      shuffle : (a b c d f : Bool) → (a && b && c && d && f) ≡ ((a && c && d) && (b && f))
      shuffle a b c d f = ground arith

  abbrev Granted : Type 0
  Granted = locks live (set t owner kind start end pid expire now).0 o k p ≡ (
      if concerns owner start end o p
      then not (kind_eq kind unlock) && kind_eq kind k && live expire
      else locks live (purge_expired t now) o k p)

  merge : (a b c : Bool) → ((a && not b) || (b && c)) ≡ (if b then c else a)
  merge a b c = ground arith

  less : (a b : Bool) → (a && not b) ≡ (if b then false else a)
  less a b = ground arith

  locks-set_lock :
      kind_eq kind unlock ≡ false
      → test (purge_expired t now) owner kind start end now ≡ none
      → Granted
  locks-set_lock locking h = rw (set_place t owner start end pid expire now kind locking h) (
      rw
        (
          locks-push,
          locks-remove_range,
          entry_locks-entry,
          merge (locks live (purge_expired t now) o k p) _ (kind_eq kind k && live expire),
          locking,
        )
        refl)

  locks-set_unlock : kind ≡ unlock → Granted
  locks-set_unlock e = rw e (
      rw
        (
          set_unlock t owner start end pid expire now,
          locks-remove_range,
          less (locks live (purge_expired t now) o k p) _,
        )
        refl)

  -- Whatever the test `live` on expiries, after a grant the owner has exactly the new mode on the
  -- range, and everything else is as `purge_expired` left it.
  pub locks-set : (set t owner kind start end pid expire now).1 ≡ none → Granted
  locks-set h = elim (Bool-cases (kind_eq kind unlock)) [
    | inl unlocking ↦ locks-set_unlock (kind_eq_sound kind unlock unlocking)
    | inr locking ↦ elim (Option-cases (test (purge_expired t now) owner kind start end now)) [
      | inl clear ↦ locks-set_lock locking clear
      | inr (c, found) ↦ absurd (
          some-ne-none c (
            sym (
              ap (λ (r : LockTable × Option Conflict). r.1)
                (set_refuse t owner start end pid expire now kind locking c found))
            ∙ h))
    ]
  ]

lez_refl : (a : ℤ) → lez a a ≡ true
lez_refl a = ground arith

module _ (t : LockTable) (owner : Text) (kind : LockKind) (start end pid : ℕ) (expire now : ℤ) where
  pub set_refused-inv :
      (c : Conflict)
      → (set t owner kind start end pid expire now).1 ≡ some c
      → ((set t owner kind start end pid expire now).0 ≡ purge_expired t now)
        × (test (purge_expired t now) owner kind start end now ≡ some c)
  unfolding set
  set_refused-inv c h = ground arith

  -- When `set` succeeds, then at every moment `later` that is not before `now`: inside the range
  -- the owner holds exactly the new mode, until `expire` (nothing, if it unlocked), and all other
  -- bytes and owners are as before.
  pub set_granted :
      (later : ℤ) (o : Text) (k : LockKind) (p : ℕ)
      → (set t owner kind start end pid expire now).1 ≡ none
      → lez now later ≡ true
      → locks (in_force later) (set t owner kind start end pid expire now).0 o k p ≡ (
          if concerns owner start end o p
          then not (kind_eq kind unlock) && kind_eq kind k && ltz later expire
          else locks (in_force later) t o k p)
  set_granted later o k p granted order =
      rw (← locks-purge_expired now later o k p order t)
        (locks-set t owner kind start end pid expire now (in_force later) o k p granted)

  -- When `set` reports a conflict, nothing that is in force from `now` on has changed, and the
  -- conflict is a lock of another owner, in force at `now`, that overlaps the range in a mode
  -- that clashes with the request.
  pub set_refused :
      (c : Conflict)
      → (set t owner kind start end pid expire now).1 ≡ some c
      → ((later : ℤ) (o : Text) (k : LockKind) (p : ℕ)
          → lez now later ≡ true
          → locks (in_force later) (set t owner kind start end pid expire now).0 o k p
            ≡ locks (in_force later) t o k p)
        × Blocker t owner kind start end now c
  set_refused c h =
      let (same, found) = set_refused-inv c h in
      let b =
        test-Blocker owner kind start end now (purge_expired t now).entries c
          (unfold test in found) in
      (
        λ later o k p order. rw same (locks-purge_expired now later o k p order t),
        record {
          holder = b.holder;
          other = b.other;
          overlap = b.overlap;
          clashes = b.clashes;
          holds = λ p lo hi.
              sym (locks-purge_expired now now b.holder c.kind p (lez_refl now) t)
              ∙ b.holds p lo hi;
        },
      )
