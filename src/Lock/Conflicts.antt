-- ===== src/Lock/Conflicts.antt =====
-- What `test` finds: a reported conflict is a real one, and no conflict means no clash in the range.
use hyperdir.Base.{
  ℕ, ◌≤◌, Bool, true, false, ◌||◌, ◌⊎◌, none, some, List, [], ◌∷◌, ◌≡◌, refl, sym, arith, any, Text,
  text_eq, text_eq_iff, Bool-cases, inl, inr,
}
use mathlib.Core.Option.{none-ne-some}
use hyperdir.Base.Int.{ℤ}
use hyperdir.Lock.{
  LockKind, read, write, unlock, kind_eq, Conflict, Entry, LockTable, test_entries, entry_locks,
  locks, in_force,
}

-- Two modes that different owners may not hold at one byte.
abbrev pub clash : LockKind → LockKind → Bool
clash k l = kind_eq k write || kind_eq l write

pub kind_eq_sound : (k l : LockKind) → kind_eq k l ≡ true → k ≡ l
kind_eq_sound read read h = refl
kind_eq_sound write write h = refl
kind_eq_sound unlock unlock h = refl
kind_eq_sound _ _ h = cc

-- What it takes for one entry to lock a byte.
pub record Locking (live : ℤ → Bool) (o : Text) (k : LockKind) (p : ℕ) (e : Entry) : Type 0 where
  pub owner : e.owner ≡ o
  pub kind : e.kind ≡ k
  pub first : e.start ≤ p
  pub last : p ≤ e.end
  pub alive : live e.expire_ms ≡ true

pub entry_locks-Locking :
    (live : ℤ → Bool) (o : Text) (k : LockKind) (p : ℕ) (e : Entry)
    → entry_locks live o k p e ≡ true
    → Locking live o k p e
unfolding entry_locks
entry_locks-Locking live o k p e h = record {
  owner = ground (arith, text_eq_iff e.owner o);
  kind = kind_eq_sound e.kind k (ground arith);
  first = ground arith;
  last = ground arith;
  alive = ground arith;
}

module _ (owner : Text) (kind : LockKind) (start end : ℕ) (now : ℤ) where
  -- An entry that does not stop `test` clashes at no byte of the range.
  entry_clear :
      (e : Entry)
      → test_entries owner kind start end now (e ∷ []) ≡ none
      → (o : Text) (k : LockKind) (p : ℕ) → text_eq o owner ≡ false
      → start ≤ p
      → p ≤ end
      → entry_locks (in_force now) o k p e ≡ true
      → clash kind k ≡ false
  unfolding test_entries
  entry_clear e h o k p other lo hi locked =
      let f = entry_locks-Locking (in_force now) o k p e locked in
      ground (arith, f.owner, f.kind, f.first, f.last, f.alive)

  test_entries-cons :
      (e : Entry) (es : List Entry)
      → test_entries owner kind start end now (e ∷ es) ≡ none
      → (test_entries owner kind start end now (e ∷ []) ≡ none)
        × (test_entries owner kind start end now es ≡ none)
  unfolding test_entries
  test_entries-cons e es h = ground arith

  pub test_clear :
      (es : List Entry)
      → test_entries owner kind start end now es ≡ none
      → (o : Text) (k : LockKind) (p : ℕ) → text_eq o owner ≡ false
      → start ≤ p
      → p ≤ end
      → any (entry_locks (in_force now) o k p) es ≡ true
      → clash kind k ≡ false
  unfolding any
  test_clear [] h o k p other lo hi locked = cc
  test_clear (e ∷ es) h o k p other lo hi locked =
      let (here, there) = test_entries-cons e es h in
      elim (Bool-cases (entry_locks (in_force now) o k p e)) [
        | inl y ↦ entry_clear e here o k p other lo hi y
        | inr n ↦ test_clear es there o k p other lo hi (rw n at locked)
      ]

-- A lock of another owner that overlaps the range `[start, end]` and clashes with `kind`, as the
-- `Conflict` describes it.
pub record Blocker (t : LockTable) (owner : Text) (kind : LockKind) (start end : ℕ) (now : ℤ)
    (c : Conflict) : Type 0 where
  pub holder : Text
  pub other : text_eq holder owner ≡ false
  pub overlap : (start ≤ c.end) × (c.start ≤ end)
  pub clashes : clash kind c.kind ≡ true
  pub holds : (p : ℕ) → c.start ≤ p → p ≤ c.end → locks (in_force now) t holder c.kind p ≡ true

pub kind_eq_refl : (k : LockKind) → kind_eq k k ≡ true
kind_eq_refl read = refl
kind_eq_refl _ = refl

pub Locking-entry_locks :
    {live : ℤ → Bool} {o : Text} {k : LockKind} {p : ℕ} (e : Entry)
    → Locking live o k p e
    → entry_locks live o k p e ≡ true
unfolding entry_locks
Locking-entry_locks {o} {k} e f =
    ground (arith, f.owner, f.kind, f.first, f.last, f.alive, text_eq_iff e.owner o, kind_eq_refl k)

any_left : (a b : Bool) → a ≡ true → (a || b) ≡ true
any_left a b h = rw h

any_right : (a b : Bool) → b ≡ true → (a || b) ≡ true
any_right true b h = refl
any_right false b h = h

module _ (owner : Text) (kind : LockKind) (start end : ℕ) (now : ℤ) where
  conflict_fields :
      (e : Entry) (c : Conflict)
      → test_entries owner kind start end now (e ∷ []) ≡ some c
      → (c.start ≡ e.start)
        × (c.end ≡ e.end)
        × (c.kind ≡ e.kind)
        × (in_force now e.expire_ms ≡ true)
  unfolding test_entries
  conflict_fields e c h = ground arith

  Blocker-here :
      (e : Entry) (es : List Entry) (c : Conflict)
      → test_entries owner kind start end now (e ∷ []) ≡ some c
      → Blocker (record { entries = e ∷ es }) owner kind start end now c
  unfolding test_entries locks
  Blocker-here e es c h = record {
    holder = e.owner;
    other = ground arith;
    overlap = ground arith;
    clashes = ground arith;
    holds = λ p lo hi.
        let (from, to, mode, alive) = conflict_fields e c h in
        any_left _ (any (entry_locks (in_force now) e.owner c.kind p) es) (
          Locking-entry_locks {live = in_force now} e (record {
            owner = refl;
            kind = sym mode;
            first = omega arith;
            last = omega arith;
            alive = alive;
          }));
  }

  test_entries-cons_some :
      (e : Entry) (es : List Entry) (c : Conflict)
      → test_entries owner kind start end now (e ∷ es) ≡ some c
      → (test_entries owner kind start end now (e ∷ []) ≡ some c)
        ⊎ (test_entries owner kind start end now es ≡ some c)
  unfolding test_entries
  test_entries-cons_some e es c h = ground arith

  -- A conflict that `test` reports is a lock of another owner, in force, that overlaps and clashes.
  pub test-Blocker :
      (es : List Entry) (c : Conflict)
      → test_entries owner kind start end now es ≡ some c
      → Blocker (record { entries = es }) owner kind start end now c
  unfolding locks
  test-Blocker [] c h = absurd (unfold test_entries in none-ne-some c h)
  test-Blocker (e ∷ es) c h = elim (test_entries-cons_some e es c h) [
    | inl here ↦ Blocker-here e es c here
    | inr there ↦
        let b = test-Blocker es c there in
        record {
          holder = b.holder;
          other = b.other;
          overlap = b.overlap;
          clashes = b.clashes;
          holds = λ p lo hi.
              any_right (entry_locks (in_force now) b.holder c.kind p e) _ (b.holds p lo hi);
        }
  ]
