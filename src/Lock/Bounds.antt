-- ===== src/Lock/Bounds.antt =====
-- Every entry of a table has a proper range and numbers of the widths of its fields: the invariant
-- under which a table is read back from its text.
use hyperdir.Base.{
  ℕ, ◌+◌, ◌-◌, ◌^◌, ◌≤◌, ◌<◌, ◌≡◌, ◌≢◌, refl, Bool, true, false, not, ◌&&◌, ◌||◌, List, [], ◌∷◌,
  ◌++◌, arith, All, All-snoc, Text, text_eq, ltb, leb, if◌then◌else◌, retain, Bool-cases,
  Option-cases, inl, inr,
}
use mathlib.Core.Bool.{true≢false}
use hyperdir.Base.Int.{ℤ, ltz, IsI64}
use hyperdir.Wire.Lines.{IsFieldByte}
use hyperdir.Lock.{
  LockKind, read, write, unlock, kind_eq, Entry, LockTable, overlaps, purge_expired, test, pieces,
  remove_entries, remove_range, new_entry, set,
}
use hyperdir.Lock.Codec.RoundTrip.{IsStored}
use hyperdir.Lock.Grant.{set_unlock, set_refuse, set_place}

-- An entry that can be stored, and whose range is not empty.
abbrev pub IsSound : Entry → Type 0
IsSound e = IsStored e × (e.start ≤ e.end)

All-join : {A : Type 0} (P : A → Type 0) (xs ys : List A) → All P ys → All P xs → All P (xs ++ ys)
All-join P [] ys back front = back
All-join P (_ ∷ xs) ys back (x, front) = (x, All-join P xs ys back front)

retain-All :
    {A : Type 0} (P : A → Type 0) (keep : A → Bool) (xs : List A)
    → All P xs
    → All P (retain keep xs)
unfolding retain
retain-All P keep [] h = tt
retain-All P keep (x ∷ xs) (p, h) = elim (Bool-cases (keep x)) [
  | inl stays ↦ rw stays (p, retain-All P keep xs h)
  | inr goes ↦ rw goes (retain-All P keep xs h)
]

-- A cut keeps the rest of an entry's numbers.
cut_end :
    (e : Entry) (start : ℕ)
    → IsSound e
    → e.start < start
    → start ≤ e.end
    → IsSound (record e { end = start - 1 })
cut_end e start (s, r) low high = (
  record {
    token = s.token;
    stored_kind = s.stored_kind;
    start_u64 = s.start_u64;
    end_u64 = omega (arith, s.end_u64);
    pid_u32 = s.pid_u32;
    expire_i64 = s.expire_i64;
  },
  omega arith,
)

cut_start : (e : Entry) (end : ℕ) → IsSound e → end < e.end → IsSound (record e { start = end + 1 })
cut_start e end (s, r) low = (
  record {
    token = s.token;
    stored_kind = s.stored_kind;
    start_u64 = omega (arith, s.end_u64);
    end_u64 = s.end_u64;
    pid_u32 = s.pid_u32;
    expire_i64 = s.expire_i64;
  },
  omega arith,
)

when-All : (b : Bool) (x : Entry) → (b ≡ true → IsSound x) → All IsSound (if b then x ∷ [] else [])
when-All true x h = (h refl, tt)
when-All false x h = tt

overlap_start : (a b c d : Bool) → (not a || not (c && d)) ≡ false → c ≡ true
overlap_start a b c d h = ground arith

pieces-IsSound :
    (owner : Text) (start end : ℕ) (e : Entry) → IsSound e → All IsSound (pieces owner start end e)
unfolding pieces overlaps
pieces-IsSound owner start end e h =
    elim (Bool-cases (not (text_eq e.owner owner) || not (leb start e.end && leb e.start end))) [
      | inl whole ↦ rw whole (h, tt)
      | inr cut ↦
          let reaches =
            overlap_start (text_eq e.owner owner) true (leb start e.end) (leb e.start end) cut in
          rw cut (
            All-join IsSound (if ltb e.start start then record e { end = start - 1 } ∷ [] else [])
              (if ltb end e.end then record e { start = end + 1 } ∷ [] else [])
              (when-All (ltb end e.end) (record e { start = end + 1 })
                (λ low. cut_start e end h (ground arith)))
              (when-All (ltb e.start start) (record e { end = start - 1 })
                (λ low. cut_end e start h (ground arith) (ground arith))))
    ]

remove_entries-IsSound :
    (owner : Text) (start end : ℕ) (es : List Entry)
    → All IsSound es
    → All IsSound (remove_entries owner start end es)
unfolding remove_entries
remove_entries-IsSound owner start end [] h = tt
remove_entries-IsSound owner start end (e ∷ es) (x, h) =
    All-join IsSound (pieces owner start end e) (remove_entries owner start end es)
      (remove_entries-IsSound owner start end es h) (pieces-IsSound owner start end e x)

purge_expired-IsSound :
    (t : LockTable) (now : ℤ) → All IsSound t.entries → All IsSound (purge_expired t now).entries
unfolding purge_expired
purge_expired-IsSound t now h = retain-All IsSound (λ e. ltz now e.expire_ms) t.entries h

-- What a caller passes to `set`: a token of printable ASCII, a range of `u64` that is not empty, a
-- `u32`, and an expiry of an `i64`.
pub record IsRequest (owner : Text) (start end pid : ℕ) (expire : ℤ) : Type 0 where
  pub token : All IsFieldByte owner
  pub ordered : start ≤ end
  pub end_u64 : end ≤ 2 ^ 64 - 1
  pub pid_u32 : pid ≤ 2 ^ 32 - 1
  pub expire_i64 : IsI64 expire

module _ (t : LockTable) (owner : Text) (start end pid : ℕ) (expire now : ℤ)
    (sound : All IsSound t.entries) (request : IsRequest owner start end pid expire) where
  left_over : All IsSound (remove_range (purge_expired t now) owner start end).entries
  unfolding remove_range
  left_over =
      remove_entries-IsSound owner start end (purge_expired t now).entries
        (purge_expired-IsSound t now sound)

  new_entry-IsSound :
      (kind : LockKind) → kind ≢ unlock → IsSound (new_entry owner kind start end pid expire)
  new_entry-IsSound kind locking = (
    record {
      token = request.token;
      stored_kind = locking;
      start_u64 = omega (arith, request.ordered, request.end_u64);
      end_u64 = request.end_u64;
      pid_u32 = request.pid_u32;
      expire_i64 = request.expire_i64;
    },
    request.ordered,
  )

  locking-IsSound :
      (kind : LockKind)
      → kind_eq kind unlock ≡ false
      → All IsSound (set t owner kind start end pid expire now).0.entries
  locking-IsSound kind locking =
      elim (Option-cases (test (purge_expired t now) owner kind start end now)) [
        | inl free ↦ rw (set_place t owner start end pid expire now kind locking free) (
            All-snoc IsSound (new_entry owner kind start end pid expire) _
              (new_entry-IsSound kind (λ e. unlock_differs kind locking e)) left_over)
        | inr (c, clash) ↦
            rw (set_refuse t owner start end pid expire now kind locking c clash)
              (purge_expired-IsSound t now sound)
      ]
    where
      unlock_differs : (k : LockKind) → kind_eq k unlock ≡ false → k ≢ unlock
      unlock_differs read h e = cc
      unlock_differs write h e = cc
      unlock_differs unlock h e = absurd (true≢false h)

  -- A request whose range is not empty and whose numbers fit keeps the table so: every entry has a
  -- range that is not empty, numbers of the widths of their fields, a stored mode and a token for its
  -- owner, whatever the request's mode and whether it is granted or not.
  pub set-IsSound :
      (kind : LockKind) → All IsSound (set t owner kind start end pid expire now).0.entries
  set-IsSound unlock = rw (set_unlock t owner start end pid expire now) left_over
  set-IsSound read = locking-IsSound read refl
  set-IsSound write = locking-IsSound write refl
