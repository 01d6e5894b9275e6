-- ===== src/Probe.antt =====
-- The directory index of src/file.rs: open addressing by linear probing over the B-tree, whose keys
-- are `crc64(name)`. The B-tree is btree-ondisk's `BMap`, and crc64 is crc64fast's: parameters.
-- A loop over keys `k`, `k + 1`, … takes the number of keys above `k`, `u64::MAX - k`, so that
-- `k.checked_add(1)` is `None` exactly where that number is zero.
pub mod Slots
pub mod Lookup
pub mod Write
pub mod Upsert
pub mod Shift
pub mod Delete
pub mod Remove
pub mod Function
mod Tests
use hyperdir.Base.{
  ℕ, zero, suc, ◌+◌, ◌-◌, ◌^◌, Bool, true, false, not, ◌&&◌, Option, none, some, leb, ◌==◌,
  if◌then◌else◌, Text, ErrorKind, not_found, other, Result, ok, err, ◌>>=◌,
}
use hyperdir.Ondisk.{DirFileEntryRaw, is_dummy, name_bytes, name_eq}

abbrev pub u64_max : ℕ
u64_max = 2 ^ 64 - 1

-- The calls of `BMap<BlockIndex, DirFileEntryRaw, …>`; `insert` without the value that it replaced.
pub record BMap (B V : Type 0) : Type 0 where
  pub lookup : B → ℕ → Result V
  pub insert : B → ℕ → V → Result B
  pub delete : B → ℕ → Result B

-- What a loop does with the answer of a lookup.
pub data Answer (V : Type 0) : Type 0 where
  value : V → Answer V
  absent : Answer V
  failed : ErrorKind → Answer V

abbrev pub answer : {V : Type 0} → Result V → Answer V
answer (ok v) = value v
answer (err not_found) = absent
answer (err e) = failed e

module _ {I : Type 0} where
  -- `!entry.is_dummy() && entry.name_eq(name)`
  unfoldable pub named : DirFileEntryRaw I → Text → Bool
  unfolding name_eq is_dummy
  named e name = not (is_dummy e) && name_eq e name

  -- `home_j` of `probe_delete`: a dummy is its own home.
  unfoldable pub home_of : (Text → ℕ) → ℕ → DirFileEntryRaw I → ℕ
  home_of crc64 j e = if is_dummy e then j else crc64 (name_bytes e)

module _ {I B : Type 0} (m : BMap B (DirFileEntryRaw I)) (crc64 : Text → ℕ) where
  -- The loop of `probe_lookup_in` from the slot `k`, with `n` keys above it.
  unfoldable pub probe_from : ℕ → ℕ → Text → B → Result (Option (ℕ × DirFileEntryRaw I))
  probe_from zero k name b = elim (answer (m.lookup b k)) [
    | value entry ↦ ok (if named entry name then some (k, entry) else none)
    | absent ↦ ok none
    | failed e ↦ err e
  ]
  probe_from (suc n) k name b = elim (answer (m.lookup b k)) [
    | value entry ↦
        let next = probe_from n (k + 1) name b in
        if named entry name then ok (some (k, entry)) else next
    | absent ↦ ok none
    | failed e ↦ err e
  ]

  unfoldable pub probe_lookup : B → Text → ℕ → Result (Option (ℕ × DirFileEntryRaw I))
  unfolding probe_from
  probe_lookup b name home = probe_from (u64_max - home) home name b

  -- The loop of `probe_upsert`: the slot to write.
  unfoldable pub slot_from : ℕ → ℕ → Text → B → Result ℕ
  slot_from zero k name b = elim (answer (m.lookup b k)) [
    | value existing ↦ if named existing name then ok k else err other
    | absent ↦ ok k
    | failed e ↦ err e
  ]
  slot_from (suc n) k name b = elim (answer (m.lookup b k)) [
    | value existing ↦
        let next = slot_from n (k + 1) name b in if named existing name then ok k else next
    | absent ↦ ok k
    | failed e ↦ err e
  ]

  unfoldable pub probe_upsert : B → Text → DirFileEntryRaw I → Result B
  unfolding slot_from
  probe_upsert b name entry =
      let home = crc64 name in do k ← slot_from (u64_max - home) home name b; m.insert b k entry

  -- The backward shift of `probe_delete` at the slot `j`, with `n` keys from `j` up: the tree and
  -- the hole at the end of the scan.
  unfoldable pub shift_from : ℕ → ℕ → ℕ → B → Result (B × ℕ)
  unfolding home_of
  shift_from zero hole j b = ok (b, hole)
  shift_from (suc n) hole j b = elim (answer (m.lookup b j)) [
    | value entry_j ↦ do
      let moves = leb (home_of crc64 j entry_j) hole
      b' ← if moves then m.insert b hole entry_j else ok b
      shift_from n (if moves then j else hole) (j + 1) b'
    | absent ↦ ok (b, hole)
    | failed e ↦ err e
  ]

  unfoldable pub probe_delete : B → Text → Result (B × Bool)
  probe_delete b name = do
    found ← probe_lookup b name (crc64 name)
    elim found [
      | none ↦ ok (b, false)
      | some (slot, _) ↦ do
        (b₁, hole) ← shift_from (u64_max - slot) slot (slot + 1) b
        b₂ ← m.delete b₁ hole
        ok (b₂, true)
    ]
