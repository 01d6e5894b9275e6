-- ===== src/Probe/Slots.antt =====
-- What the slots of a well-formed index hold, and the finite map from names that they stand for.
use hyperdir.Base.{
  ℕ, ◌≤◌, Bool, true, false, not, ◌&&◌, ◌≡◌, ◌≢◌, sym, ◌∙◌, Option, none, some, arith, ◌==◌,
  if◌then◌else◌, Text, text_eq, text_eq_iff, text_eq_refl, not_found, Result, ok, err,
}
use hyperdir.Ondisk.{DirFileEntryRaw, is_dummy, name_bytes, name_eq}
use hyperdir.Probe.{u64_max, BMap, named, home_of}

-- The answer of a B-tree to a lookup, when its storage answers.
abbrev pub read : {V : Type 0} → Option V → Result V
read none = err not_found
read (some v) = ok v

-- The documented behaviour of `BMap` while its storage answers: it is a map from keys to values.
pub record IsMap {B V : Type 0} (m : BMap B V) : Type 0 where
  pub content : B → ℕ → Option V
  pub lookup_reads : (b : B) (k : ℕ) → m.lookup b k ≡ read (content b k)
  pub insert_writes :
      (b : B) (k : ℕ) (v : V)
      → (b' : B) × (m.insert b k v ≡ ok b')
        × ((j : ℕ) → content b' j ≡ (if j == k then some v else content b j))
  pub delete_clears :
      (b : B) (k : ℕ)
      → content b k ≢ none
      → (b' : B) × (m.delete b k ≡ ok b')
        × ((j : ℕ) → content b' j ≡ (if j == k then none else content b j))

module _ {I : Type 0} where
  pub named_bytes :
      (e : DirFileEntryRaw I) (name : Text)
      → named e name ≡ true
      → (is_dummy e ≡ false) × (name_bytes e ≡ name)
  unfolding named name_eq
  named_bytes e name h =
      let (a, b) = parts (is_dummy e) (text_eq (name_bytes e) name) h in
      (a, (text_eq_iff (name_bytes e) name).0 b)
    where
      parts : (x y : Bool) → (not x && y) ≡ true → (x ≡ false) × (y ≡ true)
      parts x y q = ground arith

  pub named_self : (e : DirFileEntryRaw I) → is_dummy e ≡ false → named e (name_bytes e) ≡ true
  unfolding named name_eq
  named_self e h = rw (h, text_eq_refl (name_bytes e))

  pub named_unique :
      (e : DirFileEntryRaw I) (a b : Text) → named e a ≡ true → named e b ≡ true → a ≡ b
  named_unique e a b x y = sym (named_bytes e a x).1 ∙ (named_bytes e b y).1

  pub home_of-named :
      (crc64 : Text → ℕ) (j : ℕ) (e : DirFileEntryRaw I) (name : Text)
      → named e name ≡ true
      → home_of crc64 j e ≡ crc64 name
  unfolding home_of
  home_of-named crc64 j e name h = let (a, b) = named_bytes e name h in rw (a, b)

  -- An entry whose home is not its own slot has the same home wherever it stands.
  pub home_of-move :
      (crc64 : Text → ℕ) (j k : ℕ) (e : DirFileEntryRaw I)
      → home_of crc64 j e ≢ j
      → home_of crc64 k e ≡ home_of crc64 j e
  unfolding home_of
  home_of-move crc64 j k e h = ground arith

module _ {I : Type 0} (crc64 : Text → ℕ) where
  -- The invariant of linear probing: an entry stands at or after its home with no gap in between,
  -- and no name stands twice.
  pub record IsTable (c : ℕ → Option (DirFileEntryRaw I)) : Type 0 where
    pub bound : (k : ℕ) (e : DirFileEntryRaw I) → c k ≡ some e → k ≤ u64_max
    pub after_home : (k : ℕ) (e : DirFileEntryRaw I) → c k ≡ some e → home_of crc64 k e ≤ k
    pub no_gap :
        (k : ℕ) (e : DirFileEntryRaw I) (i : ℕ)
        → c k ≡ some e
        → home_of crc64 k e ≤ i
        → i ≤ k
        → c i ≢ none
    pub once :
        (j k : ℕ) (e f : DirFileEntryRaw I) (name : Text)
        → c j ≡ some e
        → c k ≡ some f
        → named e name ≡ true
        → named f name ≡ true
        → j ≡ k

  -- Slot `k` holds `e` under `name`.
  pub record At (c : ℕ → Option (DirFileEntryRaw I)) (name : Text) (e : DirFileEntryRaw I)
      : Type 0 where
    pub slot : ℕ
    pub holds : c slot ≡ some e
    pub is_named : named e name ≡ true

  -- The slots stand for the finite map `f` from names to entries.
  pub record Models (c : ℕ → Option (DirFileEntryRaw I)) (f : Text → Option (DirFileEntryRaw I))
      : Type 0 where
    pub table : IsTable c
    pub present : (name : Text) (e : DirFileEntryRaw I) → f name ≡ some e → At c name e
    pub absent :
        (name : Text) (k : ℕ) (e : DirFileEntryRaw I)
        → f name ≡ none
        → c k ≡ some e
        → named e name ≡ false

-- The map with `name` bound to `v`.
abbrev pub update : {V : Type 0} → (Text → Option V) → Text → Option V → Text → Option V
update f name v other = if text_eq other name then v else f other
