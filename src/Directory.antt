-- ===== src/Directory.antt =====
-- The directory handle of src/file.rs: a B-tree in memory, over the directory's staging. hyperfile
-- loads the latest persisted tree and flushes one, the staging's calls are `DirStaging` of
-- src/lib.rs, and both are parameters over the states `W` of the store.
pub mod Changes
pub mod Entries
pub mod Listing
pub mod Compact
pub mod Resolve
pub mod Rename
pub mod Lookup
pub mod Exclusive
mod Tests
use hyperdir.Base.{
  ℕ, ◌≡◌, refl, Bool, true, false, Option, none, some, List, [], ◌∷◌, Text, text_eq, if◌then◌else◌,
  Result, ok, err,
}
use hyperdir.Lease.{CompactLeaseGuard}
use hyperdir.Scatter.{DirScatterInode}

-- The trait `DirStaging`, as far as the handle calls it, with hyperfile's load and flush of the
-- tree (`load_inode` and `BMap::read`, and `flush`).
pub record DirStaging (W B : Type 0) : Type 0 where
  pub list_scatter_inodes : W → Result (List DirScatterInode)
  pub list_scatter_inodes_for_name : W → Text → Result (List DirScatterInode)
  pub collect_scatter_inodes : W → List DirScatterInode → Result (List (DirScatterInode × Text))
  pub remove_scatter_inodes : W → List Text → W × Result (Unit {0})
  pub acquire_compact_lease : W → ℕ → W × Result CompactLeaseGuard
  pub release_compact_lease : W → CompactLeaseGuard → W × Result (Unit {0})
  pub load_bmap : W → Result B
  pub flush : W → B → W × Result (Unit {0})

-- A call that may change the store: its state, then the answer. `m >>>= f` goes on after a success.
infixl 5 ◌>>>=◌
abbrev pub ◌>>>=◌ : {W A C : Type 0} → W × Result A → (W → A → W × Result C) → W × Result C
(w, ok a) >>>= f = f w a
(w, err e) >>>= f = (w, err e)

-- A chain that succeeds: its first part did, and so did the rest.
pub chain_ok :
    {W A C : Type 0} (r : W × Result A) (f : W → A → W × Result C) (w' : W) (c : C)
    → (r >>>= f) ≡ (w', ok c)
    → (v : W) × (a : A) × (r ≡ (v, ok a)) × (f v a ≡ (w', ok c))
chain_ok (v, ok a) f w' c q = (v, a, refl, q)
chain_ok (v, err e) f w' c q = cc

-- The same for a step that only reads.
pub read_ok :
    {W A C : Type 0} (v : W) (r : Result A) (f : W → A → W × Result C) (w' : W) (c : C)
    → ((v, r) >>>= f) ≡ (w', ok c)
    → (a : A) × (r ≡ ok a) × (f v a ≡ (w', ok c))
read_ok v (ok a) f w' c q = (a, refl, q)
read_ok v (err e) f w' c q = cc

-- A `HashMap` keyed by text: `insert`, `remove`, and the binding of a key.
abbrev pub Dict : Type 0 → Type 0
Dict V = List (Text × V)

unfoldable pub insert : {V : Type 0} → Text → V → Dict V → Dict V
insert key v [] = (key, v) ∷ []
insert key v ((k, u) ∷ d) = if text_eq k key then (key, v) ∷ d else (k, u) ∷ insert key v d

unfoldable pub remove : {V : Type 0} → Text → Dict V → Dict V
remove key [] = []
remove key ((k, u) ∷ d) = if text_eq k key then d else (k, u) ∷ remove key d

unfoldable pub get : {V : Type 0} → Text → Dict V → Option V
get key [] = none
get key ((k, u) ∷ d) = if text_eq k key then some u else get key d
