-- ===== src/Probe/Upsert.antt =====
-- `probe_upsert` on a well-formed index: it writes one slot, keeps the index well-formed, and binds
-- the name; it fails only when no slot from the name's home on is free.
use hyperdir.Base.{
  ℕ, zero, suc, ◌+◌, ◌-◌, ◌≤◌, ◌<◌, true, false, ◌≡◌, ◌∙◌, ◌⊎◌, Option, none, some, arith, Text,
  other, ok, err, Bool-cases, Option-cases, inl, inr,
}
use mathlib.Core.Path.{subst}
use native.Mathlib.Decide.{ℕ_discrete}
use hyperdir.Ondisk.{DirFileEntryRaw}
use hyperdir.Probe.{u64_max, BMap, named, slot_from, probe_upsert}
use hyperdir.Probe.Write.{write-Models}
use hyperdir.Probe.Slots.{IsMap, Models, update}

module _ {I B : Type 0} (m : BMap B (DirFileEntryRaw I)) (crc64 : Text → ℕ) (h : IsMap m) (b : B)
    (name : Text) where
  -- A slot that the loop passes over.
  abbrev pub Taken : ℕ → Type 0
  Taken j = (e : DirFileEntryRaw I) × (h.content b j ≡ some e) × (named e name ≡ false)

  -- The slot that the loop stops at, from `i` on.
  pub record Room (n i : ℕ) : Type 0 where
    pub slot : ℕ
    pub low : i ≤ slot
    pub high : slot ≤ i + n
    pub returns : slot_from m crc64 n i name b ≡ ok slot
    pub usable :
        (h.content b slot ≡ none)
        ⊎ ((e : DirFileEntryRaw I) × (h.content b slot ≡ some e) × (named e name ≡ true))
    pub taken : (j : ℕ) → i ≤ j → j < slot → Taken j

  pub record Full (n i : ℕ) : Type 0 where
    pub returns : slot_from m crc64 n i name b ≡ err other
    pub taken : (j : ℕ) → i ≤ j → j ≤ i + n → Taken j

  slot_empty : (n k : ℕ) → h.content b k ≡ none → slot_from m crc64 n k name b ≡ ok k
  unfolding slot_from
  slot_empty zero k e = ground (arith, h.lookup_reads b k)
  slot_empty (suc n) k e = ground (arith, h.lookup_reads b k)

  slot_same :
      (n k : ℕ) (e : DirFileEntryRaw I)
      → h.content b k ≡ some e
      → named e name ≡ true
      → slot_from m crc64 n k name b ≡ ok k
  unfolding slot_from
  slot_same zero k e held is = ground (arith, h.lookup_reads b k)
  slot_same (suc n) k e held is = ground (arith, h.lookup_reads b k)

  slot_pass :
      (n k : ℕ) → Taken k → slot_from m crc64 (suc n) k name b ≡ slot_from m crc64 n (k + 1) name b
  unfolding slot_from
  slot_pass n k t = ground (arith, h.lookup_reads b k)

  slot_end : (k : ℕ) → Taken k → slot_from m crc64 zero k name b ≡ err other
  unfolding slot_from
  slot_end k t = ground (arith, h.lookup_reads b k)

  Room-here :
      (n i : ℕ)
      → (h.content b i ≡ none)
        ⊎ ((e : DirFileEntryRaw I) × (h.content b i ≡ some e) × (named e name ≡ true))
      → Room n i
  Room-here n i u = record {
    slot = i;
    low = omega arith;
    high = omega arith;
    returns = elim u [ inl e ↦ slot_empty n i e | inr (e, held, is) ↦ slot_same n i e held is ];
    usable = u;
    taken = λ j lo hi. absurd (omega arith);
  }

  with_here : (i j : ℕ) → Taken i → i ≤ j → (i + 1 ≤ j → Taken j) → Taken j
  with_here i j t lo later = elim (ℕ_discrete i j) [
    | yes same ↦ subst Taken same t
    | no differ ↦ later (omega arith)
  ]

  Room-later : (n i : ℕ) → Taken i → Room n (i + 1) → Room (suc n) i
  Room-later n i t r = record {
    slot = r.slot;
    low = omega (arith, r.low);
    high = omega (arith, r.high);
    returns = slot_pass n i t ∙ r.returns;
    usable = r.usable;
    taken = λ j lo hi. with_here i j t lo (λ past. r.taken j past hi);
  }

  Full-later : (n i : ℕ) → Taken i → Full n (i + 1) → Full (suc n) i
  Full-later n i t f = record {
    returns = slot_pass n i t ∙ f.returns;
    taken = λ j lo hi. with_here i j t lo (λ past. f.taken j past (omega arith));
  }

  Full-here : (i : ℕ) → Taken i → Full zero i
  Full-here i t = record {
    returns = slot_end i t;
    taken = λ j lo hi. with_here i j t lo (λ past. absurd (omega arith));
  }

  taken_or_usable :
      (i : ℕ)
      → Taken i
        ⊎ ((h.content b i ≡ none)
            ⊎ ((e : DirFileEntryRaw I) × (h.content b i ≡ some e) × (named e name ≡ true)))
  taken_or_usable i = elim (Option-cases (h.content b i)) [
    | inl gap ↦ inr (inl gap)
    | inr (e, held) ↦ elim (Bool-cases (named e name)) [
      | inl is ↦ inr (inr (e, held, is))
      | inr pass ↦ inl (e, held, pass)
    ]
  ]

  pub Room-or-Full : (n i : ℕ) → Room n i ⊎ Full n i
  Room-or-Full zero i = elim (taken_or_usable i) [
    | inl t ↦ inr (Full-here i t)
    | inr u ↦ inl (Room-here zero i u)
  ]
  Room-or-Full (suc n) i = elim (taken_or_usable i) [
    | inr u ↦ inl (Room-here (suc n) i u)
    | inl t ↦ elim (Room-or-Full n (i + 1)) [
      | inl r ↦ inl (Room-later n i t r)
      | inr f ↦ inr (Full-later n i t f)
    ]
  ]

module _ {I B : Type 0} (m : BMap B (DirFileEntryRaw I)) (crc64 : Text → ℕ) (h : IsMap m) (b : B)
    (f : Text → Option (DirFileEntryRaw I)) (name : Text) (v : DirFileEntryRaw I)
    (w : Models crc64 (h.content b) f) (own : named v name ≡ true)
    (small : crc64 name ≤ u64_max) where
  -- The name is bound to `v`, and all else is as before.
  abbrev pub Bound : Type 0
  Bound =
      (b' : B) × (probe_upsert m crc64 b name v ≡ ok b')
      × Models crc64 (h.content b') (update f name (some v))

  -- The probe chain ran out of keys: every slot from the home on holds an entry of another name.
  abbrev pub Exhausted : Type 0
  Exhausted =
      (probe_upsert m crc64 b name v ≡ err other)
      × ((j : ℕ) → crc64 name ≤ j → j ≤ u64_max → Taken m crc64 h b name j)

  Bound-room : Room m crc64 h b name (u64_max - crc64 name) (crc64 name) → Bound
  unfolding probe_upsert
  Bound-room r =
      let (b', inserts, writes) = h.insert_writes b r.slot v in
      (
        b',
        rw r.returns inserts,
        write-Models crc64 (h.content b) (h.content b') w.table name v own r.slot
            (omega (arith, r.high)) r.low r.taken r.usable writes f w,
      )

  Exhausted-full : Full m crc64 h b name (u64_max - crc64 name) (crc64 name) → Exhausted
  unfolding probe_upsert
  Exhausted-full r = (rw r.returns, λ j lo hi. r.taken j lo (omega arith))

  -- On a well-formed index that stands for the map `f`, `probe_upsert` either returns a
  -- well-formed index that stands for `f` with the name bound to the entry, or fails, and then
  -- every slot from the home of the name on is taken by another name.
  pub probe_upsert-Models : Bound ⊎ Exhausted
  probe_upsert-Models = elim (Room-or-Full m crc64 h b name (u64_max - crc64 name) (crc64 name)) [
    | inl room ↦ inl (Bound-room room)
    | inr full ↦ inr (Exhausted-full full)
  ]
