-- ===== src/Lock.antt =====
-- The byte-range lock engine: `LockTable` of src/lock.rs. Ranges are inclusive, an entry past its
-- expiry counts for nothing, and `Unlock` is never stored.
pub mod Range
pub mod Expiry
pub mod Conflicts
pub mod Grant
pub mod Exclusion
pub mod History
pub mod Codec
pub mod Bounds
pub mod Service
mod Tests
use hyperdir.Base.{
  ℕ, ◌+◌, ◌-◌, ◌^◌, Bool, true, false, not, ◌&&◌, ◌||◌, Option, none, some, List, [], ◌∷◌, ◌++◌,
  ltb, leb, ◌==◌, if◌then◌else◌, length, retain, any, Text, text_eq,
}
use hyperdir.Base.Int.{ℤ, ltz, lez}

pub data LockKind : Type 0 where
  read write unlock : LockKind

abbrev pub kind_eq : LockKind → LockKind → Bool
kind_eq read read = true
kind_eq write write = true
kind_eq unlock unlock = true
kind_eq _ _ = false

pub record Conflict : Type 0 where
  pub start : ℕ
  pub end : ℕ
  pub kind : LockKind
  pub pid : ℕ

pub data SetLkOutcome : Type 0 where
  granted : SetLkOutcome
  conflict : Conflict → SetLkOutcome

pub record Entry : Type 0 where
  pub owner : Text
  pub kind : LockKind
  pub start : ℕ
  pub end : ℕ
  pub pid : ℕ
  pub expire_ms : ℤ

pub record LockTable : Type 0 where
  pub entries : List Entry

abbrev pub default : LockTable
default = record { entries = [] }

unfoldable pub overlaps : ℕ → ℕ → ℕ → ℕ → Bool
overlaps a_start a_end b_start b_end = leb a_start b_end && leb b_start a_end

unfoldable pub purge_expired : LockTable → ℤ → LockTable
unfolding retain
purge_expired t now_ms = record t { entries = retain (λ e. ltz now_ms e.expire_ms) t.entries }

-- The `for` loop of `test`.
unfoldable pub test_entries : Text → LockKind → ℕ → ℕ → ℤ → List Entry → Option Conflict
unfolding overlaps
test_entries owner kind start end now_ms [] = none
test_entries owner kind start end now_ms (e ∷ es) =
    let rest = test_entries owner kind start end now_ms es in
    if lez e.expire_ms now_ms || text_eq e.owner owner
    then rest
    else if overlaps start end e.start e.end && (kind_eq kind write || kind_eq e.kind write)
    then some (record { start = e.start; end = e.end; kind = e.kind; pid = e.pid })
    else rest

unfoldable pub test : LockTable → Text → LockKind → ℕ → ℕ → ℤ → Option Conflict
unfolding test_entries
test t owner kind start end now_ms = test_entries owner kind start end now_ms t.entries

-- What one entry leaves behind in the loop of `remove_range`.
unfoldable pub pieces : Text → ℕ → ℕ → Entry → List Entry
unfolding overlaps
pieces owner start end e =
    if not (text_eq e.owner owner) || not (overlaps start end e.start e.end)
    then e ∷ []
    else (if ltb e.start start then record e { end = start - 1 } ∷ [] else [])
      ++ (if ltb end e.end then record e { start = end + 1 } ∷ [] else [])

unfoldable pub remove_entries : Text → ℕ → ℕ → List Entry → List Entry
unfolding pieces
remove_entries owner start end [] = []
remove_entries owner start end (e ∷ es) =
    pieces owner start end e ++ remove_entries owner start end es

unfoldable pub remove_range : LockTable → Text → ℕ → ℕ → LockTable
unfolding remove_entries
remove_range t owner start end = record t { entries = remove_entries owner start end t.entries }

-- The `Entry { … }` that `set` pushes.
abbrev pub new_entry : Text → LockKind → ℕ → ℕ → ℕ → ℤ → Entry
new_entry owner kind start end pid expire_ms = record {
  owner = owner;
  kind = kind;
  start = start;
  end = end;
  pid = pid;
  expire_ms = expire_ms;
}

-- `set`: the table after the call, and its `Result<(), Conflict>` (`none` is `Ok(())`).
unfoldable pub set : LockTable → Text → LockKind → ℕ → ℕ → ℕ → ℤ → ℤ → LockTable × Option Conflict
set t owner kind start end pid expire_ms now_ms =
    let t₁ = purge_expired t now_ms in
    if kind_eq kind unlock
    then (remove_range t₁ owner start end, none)
    else elim (test t₁ owner kind start end now_ms) [
      | some c ↦ (t₁, some c)
      | none ↦
          let t₂ = remove_range t₁ owner start end in
          (
            record { entries = t₂.entries ++ new_entry owner kind start end pid expire_ms ∷ [] },
            none,
          )
    ]

unfoldable pub release_owner : LockTable → Text → LockTable × Bool
unfolding retain
release_owner t owner =
    let kept = retain (λ e. not (text_eq e.owner owner)) t.entries in
    (record { entries = kept }, not (length kept == length t.entries))

-- The loop of `renew`: the entries afterwards, and whether any was the owner's.
unfoldable pub renew_entries : Text → ℤ → List Entry → List Entry × Bool
renew_entries owner expire_ms [] = ([], false)
renew_entries owner expire_ms (e ∷ es) =
    let (es', found) = renew_entries owner expire_ms es in
    if text_eq e.owner owner
    then (record e { expire_ms = expire_ms } ∷ es', true)
    else (e ∷ es', found)

unfoldable pub renew : LockTable → Text → ℤ → LockTable × Bool
unfolding renew_entries
renew t owner expire_ms =
    let (es, found) = renew_entries owner expire_ms t.entries in (record { entries = es }, found)

-- The abstract view: does `owner` hold a lock of this kind at byte `p`, by an entry whose expiry
-- passes the test `live`?
unfoldable pub entry_locks : (ℤ → Bool) → Text → LockKind → ℕ → Entry → Bool
entry_locks live owner kind p e =
    text_eq e.owner owner && kind_eq e.kind kind && leb e.start p && leb p e.end && live e.expire_ms

unfoldable pub locks : (ℤ → Bool) → LockTable → Text → LockKind → ℕ → Bool
unfolding entry_locks any
locks live t owner kind p = any (entry_locks live owner kind p) t.entries

-- The entries in force at `now_ms`, and all that the table lists, expired or not.
abbrev pub in_force : ℤ → ℤ → Bool
in_force now_ms expire_ms = ltz now_ms expire_ms

abbrev pub listed : ℤ → Bool
listed _ = true
