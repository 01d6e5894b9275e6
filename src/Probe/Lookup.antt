-- ===== src/Probe/Lookup.antt =====
-- Probing finds exactly the entry that the index holds under a name.
use hyperdir.Base.{
  ℕ, zero, suc, ◌+◌, ◌-◌, ◌≤◌, true, false, ◌≡◌, ◌≢◌, sym, ◌∙◌, ap, none, some, arith, Text, ok,
  Bool-cases, Option-cases, inl, inr,
}
use mathlib.Core.Option.{some-injective}
use hyperdir.Ondisk.{DirFileEntryRaw}
use hyperdir.Probe.{u64_max, BMap, named, probe_from, probe_lookup}
use hyperdir.Probe.Slots.{IsMap, home_of-named, IsTable}

module _ {I B : Type 0} (m : BMap B (DirFileEntryRaw I)) (crc64 : Text → ℕ) (h : IsMap m)
    (b : B) where
  -- One round: the slot is empty, matches, or is passed over.
  probe_empty :
      (n k : ℕ) (name : Text) → h.content b k ≡ none → probe_from m crc64 n k name b ≡ ok none
  unfolding probe_from
  probe_empty zero k name e = ground (arith, h.lookup_reads b k)
  probe_empty (suc n) k name e = ground (arith, h.lookup_reads b k)

  probe_hit :
      (n k : ℕ) (name : Text) (e : DirFileEntryRaw I)
      → h.content b k ≡ some e
      → named e name ≡ true
      → probe_from m crc64 n k name b ≡ ok (some (k, e))
  unfolding probe_from
  probe_hit zero k name e held yes_named = ground (arith, h.lookup_reads b k)
  probe_hit (suc n) k name e held yes_named = ground (arith, h.lookup_reads b k)

  probe_pass :
      (n k : ℕ) (name : Text) (e : DirFileEntryRaw I)
      → h.content b k ≡ some e
      → named e name ≡ false
      → probe_from m crc64 (suc n) k name b ≡ probe_from m crc64 n (k + 1) name b
  unfolding probe_from
  probe_pass n k name e held not_named = ground (arith, h.lookup_reads b k)

  probe_end :
      (k : ℕ) (name : Text) (e : DirFileEntryRaw I)
      → h.content b k ≡ some e
      → named e name ≡ false
      → probe_from m crc64 zero k name b ≡ ok none
  unfolding probe_from
  probe_end k name e held not_named = ground (arith, h.lookup_reads b k)

  module _ (t : IsTable crc64 (h.content b)) (name : Text) where
    probe_reaches :
        (n i k : ℕ) (e : DirFileEntryRaw I)
        → i + n ≡ u64_max
        → crc64 name ≤ i
        → i ≤ k
        → h.content b k ≡ some e
        → named e name ≡ true
        → probe_from m crc64 n i name b ≡ ok (some (k, e))
    probe_reaches zero i k e room lo hi held is =
        let same : i ≡ k = omega (arith, t.bound k e held) in
        rw same (probe_hit zero k name e held is)
    probe_reaches (suc n) i k e room lo hi held is = elim (Option-cases (h.content b i)) [
      | inl gap ↦ absurd (t.no_gap k e i held (rw (home_of-named crc64 k e name is) lo) hi gap)
      | inr (f, held_i) ↦ elim (Bool-cases (named f name)) [
        | inl here ↦
            let same = t.once i k f e name held_i held here is in
            rw same (probe_hit (suc n) k name e held is)
        | inr pass ↦
            let differ : i ≢ k = λ same.
              let as_e : some f ≡ some e = sym held_i ∙ ap (h.content b) same ∙ held in
              cc (some-injective f e as_e) in
            probe_pass n i name f held_i pass
            ∙ probe_reaches n (i + 1) k e (omega arith) (omega arith) (omega arith) held is
      ]
    ]

    -- On a well-formed index, when the hash of the name is a `u64`, the entry that a slot holds
    -- under the name is what `probe_lookup` answers, with its slot, however far from its home it
    -- stands.
    pub probe_lookup-held :
        (k : ℕ) (e : DirFileEntryRaw I)
        → crc64 name ≤ u64_max
        → h.content b k ≡ some e
        → named e name ≡ true
        → probe_lookup m crc64 b name (crc64 name) ≡ ok (some (k, e))
    unfolding probe_lookup
    probe_lookup-held k e small held is =
        probe_reaches (u64_max - crc64 name) (crc64 name) k e (omega arith) (omega arith)
          (rw (← home_of-named crc64 k e name is) (t.after_home k e held)) held is

  -- A name that no slot holds is not found, whatever the table.
  pub probe_from-absent :
      (n i : ℕ) (name : Text)
      → ((k : ℕ) (e : DirFileEntryRaw I) → h.content b k ≡ some e → named e name ≡ false)
      → probe_from m crc64 n i name b ≡ ok none
  probe_from-absent zero i name none_named = elim (Option-cases (h.content b i)) [
    | inl e ↦ probe_empty zero i name e
    | inr (e, held) ↦ probe_end i name e held (none_named i e held)
  ]
  probe_from-absent (suc n) i name none_named = elim (Option-cases (h.content b i)) [
    | inl e ↦ probe_empty (suc n) i name e
    | inr (e, held) ↦
        probe_pass n i name e held (none_named i e held)
        ∙ probe_from-absent n (i + 1) name none_named
  ]

  pub probe_lookup-absent :
      (name : Text)
      → ((k : ℕ) (e : DirFileEntryRaw I) → h.content b k ≡ some e → named e name ≡ false)
      → probe_lookup m crc64 b name (crc64 name) ≡ ok none
  unfolding probe_lookup
  probe_lookup-absent name = probe_from-absent (u64_max - crc64 name) (crc64 name) name
