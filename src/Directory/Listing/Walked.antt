-- ===== src/Directory/Listing/Walked.antt =====
-- The walk over a tree ends by itself: its rounds are enough.
use hyperdir.Base.{
  ℕ, zero, suc, ◌+◌, ◌≤◌, ◌≡◌, refl, ap, ◌∙◌, Bool, true, false, List, [], ltb, ◌==◌, if◌then◌else◌,
  arith, Result, ok,
}
use hyperdir.Ondisk.{DirFileEntryRaw}
use hyperdir.Probe.{u64_max, BMap, Answer, answer, value, absent, failed}
use hyperdir.Directory.Listing.{Cursor, walk_entry, walk_found, walk_from}

-- What is asked of btree-ondisk's cursor: `seek_key` finds a key that is not before the one that it is
-- given, and keys are `u64`.
pub record IsCursor {B : Type 0} (cursor : Cursor B) : Type 0 where
  pub seeks : (b : B) (n k : ℕ) → answer (cursor.seek_key b n) ≡ value k → (n ≤ k) × (k ≤ u64_max)

one_more : (a b : ℕ) → suc a + b ≡ suc (a + b)
one_more a b = omega arith

module _ {B I : Type 0} (m : BMap B (DirFileEntryRaw I)) (cursor : Cursor B) (h : IsCursor cursor)
    (b : B) where
  walk_found-more :
      (last n : ℕ) (more fewer : ℕ → Result (List (DirFileEntryRaw I))) (a : Answer ℕ)
      → answer (cursor.seek_key b n) ≡ a
      → ((k : ℕ) → n ≤ k → suc k ≤ u64_max → more (k + 1) ≡ fewer (k + 1))
      → walk_found m cursor b last more a ≡ walk_found m cursor b last fewer a
  unfolding walk_found
  walk_found-more last n more fewer absent seeks same = refl
  walk_found-more last n more fewer (failed e) seeks same = refl
  walk_found-more last n more fewer (value k) seeks same =
      let (low, high) = h.seeks b n k seeks in
      ap (λ rest. if ltb last k then ok [] else walk_entry m cursor b (m.lookup b k) rest)
        (behind (k == u64_max) refl low high)
    where
      behind :
          (end : Bool)
          → (k == u64_max) ≡ end
          → n ≤ k
          → k ≤ u64_max
          → (if k == u64_max then ok [] else more (k + 1))
            ≡ (if k == u64_max then ok [] else fewer (k + 1))
      behind true at low high = rw at refl
      behind false at low high = rw at (same k low (ground arith))

  -- Once the rounds reach from `n` to the last `u64`, one round more changes nothing.
  walk_from-more :
      (rounds last n : ℕ)
      → n ≤ u64_max
      → u64_max ≤ rounds + n
      → walk_from m cursor b (suc (suc rounds)) last n ≡ walk_from m cursor b (suc rounds) last n
  unfolding walk_from
  walk_from-more zero last n small reach =
      walk_found-more last n (walk_from m cursor b 1 last) (walk_from m cursor b 0 last)
        (answer (cursor.seek_key b n)) refl (λ k low high. absurd (omega arith))
  walk_from-more (suc rounds) last n small reach =
      walk_found-more last n (walk_from m cursor b (suc (suc rounds)) last)
        (walk_from m cursor b (suc rounds) last) (answer (cursor.seek_key b n)) refl
        (λ k low high. walk_from-more rounds last (k + 1) (omega arith) (omega arith))

  -- Over a cursor that never goes back, `u64::MAX + 1` rounds are enough for the walk over any tree:
  -- whatever number of further rounds is given, the answer is the same.
  pub walk_from-enough :
      (further last : ℕ)
      → walk_from m cursor b (suc (further + u64_max)) last 0
        ≡ walk_from m cursor b (suc u64_max) last 0
  walk_from-enough zero last = refl
  walk_from-enough (suc further) last =
      ap (λ r. walk_from m cursor b (suc r) last 0) (one_more further u64_max)
      ∙ walk_from-more (further + u64_max) last 0 (omega arith) (omega arith)
      ∙ walk_from-enough further last
