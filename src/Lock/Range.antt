-- ===== src/Lock/Range.antt =====
-- What `remove_range` leaves, byte by byte, and that it keeps ranges well-formed.
use hyperdir.Base.{
  ℕ, Bool, not, ◌&&◌, List, [], ◌∷◌, ◌≡◌, refl, arith, leb, any, any-append, Text, text_eq,
  text_eq_iff,
}
use hyperdir.Base.Int.{ℤ}
use hyperdir.Lock.{
  LockKind, Entry, LockTable, pieces, remove_entries, remove_range, entry_locks, locks,
}

module _ (owner : Text) (start end : ℕ) (live : ℤ → Bool) (o : Text) (k : LockKind) (p : ℕ) where
  -- The bytes of `owner` in the range.
  abbrev cut : Bool
  cut = text_eq o owner && leb start p && leb p end

  any-pieces :
      (e : Entry)
      → any (entry_locks live o k p) (pieces owner start end e)
        ≡ (entry_locks live o k p e && not cut)
  unfolding pieces entry_locks any
  any-pieces e =
      ground (arith, text_eq_iff e.owner owner, text_eq_iff e.owner o, text_eq_iff o owner)

  any-remove_entries :
      (es : List Entry)
      → any (entry_locks live o k p) (remove_entries owner start end es)
        ≡ (any (entry_locks live o k p) es && not cut)
  unfolding remove_entries any
  any-remove_entries [] = refl
  any-remove_entries (e ∷ es) = ground (
    arith,
    any-append (entry_locks live o k p) (pieces owner start end e)
        (remove_entries owner start end es),
    any-pieces e,
    any-remove_entries es,
  )

-- After `remove_range` every owner holds what it held in each mode at each byte, under any test of
-- the expiries, less the bytes of the range that were the owner's own.
pub locks-remove_range :
    (t : LockTable) (owner : Text) (start end : ℕ) (live : ℤ → Bool) (o : Text) (k : LockKind)
    (p : ℕ)
    → locks live (remove_range t owner start end) o k p
      ≡ (locks live t o k p && not (text_eq o owner && leb start p && leb p end))
unfolding locks remove_range
locks-remove_range t owner start end live o k p =
    any-remove_entries owner start end live o k p t.entries
