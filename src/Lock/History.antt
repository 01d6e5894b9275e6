-- ===== src/Lock/History.antt =====
-- Lock tables over time: every sequence of calls keeps owners apart.
use hyperdir.Base.{
  ℕ, Bool, true, ◌&&◌, ◌≡◌, ◌≢◌, arith, List, [], ◌∷◌, any, Text, text_eq, text_eq_iff,
  eq-false_of_ne,
}
use hyperdir.Base.Int.{ℤ}
use hyperdir.Lock.{
  LockKind, write, kind_eq, Entry, LockTable, default, set, release_owner, renew, entry_locks,
  locks, in_force, listed,
}
use hyperdir.Lock.Conflicts.{kind_eq_refl}
use hyperdir.Lock.Exclusion.{
  IsExclusive, IsExclusive-default, set-IsExclusive, release_owner-IsExclusive, renew-IsExclusive,
}

-- The tables that calls of `set`, `release_owner` and `renew` build from the empty one, with any
-- owners, ranges, clocks and expiries, in any order.
pub data Reachable : LockTable → Type 0 where
  start : Reachable default
  after_set :
      {t : LockTable} (owner : Text) (kind : LockKind) (first last pid : ℕ) (expire now : ℤ)
      → Reachable t
      → Reachable (set t owner kind first last pid expire now).0
  after_release : {t : LockTable} (owner : Text) → Reachable t → Reachable (release_owner t owner).0
  after_renew :
      {t : LockTable} (owner : Text) (expire : ℤ) → Reachable t → Reachable (renew t owner expire).0

pub Reachable-IsExclusive : {t : LockTable} → Reachable t → IsExclusive t
Reachable-IsExclusive start = IsExclusive-default
Reachable-IsExclusive (after_set {t = t} owner kind first last pid expire now r) =
    set-IsExclusive t owner kind first last pid expire now (Reachable-IsExclusive r)
Reachable-IsExclusive (after_release {t = t} owner r) =
    release_owner-IsExclusive t owner (Reachable-IsExclusive r)
Reachable-IsExclusive (after_renew {t = t} owner expire r) =
    renew-IsExclusive t owner expire (Reachable-IsExclusive r)

entry_locks-listed :
    (live : ℤ → Bool) (o : Text) (k : LockKind) (p : ℕ) (e : Entry)
    → entry_locks live o k p e ≡ true
    → entry_locks listed o k p e ≡ true
unfolding entry_locks
entry_locks-listed live o k p e h =
    weaken (text_eq e.owner o) (kind_eq e.kind k) _ _ (live e.expire_ms) h
  where
    weaken : (a b c d f : Bool) → (a && b && c && d && f) ≡ true → (a && b && c && d && true) ≡ true
    weaken a b c d f q = ground arith

locks-listed :
    (live : ℤ → Bool) (o : Text) (k : LockKind) (p : ℕ) (es : List Entry)
    → any (entry_locks live o k p) es ≡ true
    → any (entry_locks listed o k p) es ≡ true
unfolding any
locks-listed live o k p [] h = h
locks-listed live o k p (e ∷ es) h =
    ground (arith, entry_locks-listed live o k p e, locks-listed live o k p es)

-- However a table came about from the empty one by `set`, `release_owner` and `renew`, if two
-- different owners have locks in force at one byte at one moment, neither of the two is a write
-- lock.
pub mutual_exclusion :
    {t : LockTable}
    → Reachable t
    → (now : ℤ) (a b : Text) (k l : LockKind) (p : ℕ) → a ≢ b
    → locks (in_force now) t a k p ≡ true
    → locks (in_force now) t b l p ≡ true
    → (k ≢ write) × (l ≢ write)
unfolding locks
mutual_exclusion {t} r now a b k l p differ x y =
    let calm =
      (Reachable-IsExclusive r).apart a b k l p
        (eq-false_of_ne (text_eq a b) (λ e. differ ((text_eq_iff a b).0 e)))
        (locks-listed (in_force now) a k p t.entries x)
        (locks-listed (in_force now) b l p t.entries y) in
    (λ e. ground (arith, e, calm, kind_eq_refl k), λ e. ground (arith, e, calm, kind_eq_refl l))
