-- ===== src/Probe/Delete.antt =====
-- `probe_delete` on a well-formed index: the scan ends, the chain is repaired, and exactly the
-- deleted name is gone.
use hyperdir.Base.{
  ℕ, zero, suc, ◌+◌, ◌≤◌, true, false, ◌≡◌, ◌≢◌, refl, sym, ◌∙◌, ap, Option, none, some, arith, leb,
  ◌==◌, if◌then◌else◌, Text, ok, Bool-cases, Option-cases, inl, inr, ==_iff, eq-false_of_ne,
}
use mathlib.Core.Path.{subst}
use mathlib.Core.Option.{none-ne-some}
use native.Mathlib.Decide.{ℕ_discrete}
use hyperdir.Ondisk.{DirFileEntryRaw}
use hyperdir.Probe.{u64_max, BMap, home_of, shift_from}
use hyperdir.Probe.Slots.{read, IsMap, IsTable}
use hyperdir.Probe.Shift.{
  Hollow, Moved, Moved-refl, Moved-trans, Hollow-end, Hollow-stay, Hollow-move, Moved-move,
}

module _ {I B : Type 0} (m : BMap B (DirFileEntryRaw I)) (crc64 : Text → ℕ) (h : IsMap m) where
  read_at : (j : ℕ) (b : B) (e : DirFileEntryRaw I) → h.content b j ≡ some e → m.lookup b j ≡ ok e
  read_at j b e held = h.lookup_reads b j ∙ ap read held

  shift_stop :
      (n hole j : ℕ) (b : B) → h.content b j ≡ none → shift_from m crc64 n hole j b ≡ ok (b, hole)
  unfolding shift_from
  shift_stop zero hole j b gap = refl
  shift_stop (suc n) hole j b gap = ground (arith, h.lookup_reads b j)

  shift_stay :
      (n hole j : ℕ) (b : B) (e : DirFileEntryRaw I)
      → h.content b j ≡ some e
      → leb (home_of crc64 j e) hole ≡ false
      → shift_from m crc64 (suc n) hole j b ≡ shift_from m crc64 n hole (j + 1) b
  unfolding shift_from
  shift_stay n hole j b e held past = rw (read_at j b e held, shift_from, past)

  shift_move :
      (n hole j : ℕ) (b b' : B) (e : DirFileEntryRaw I)
      → h.content b j ≡ some e
      → leb (home_of crc64 j e) hole ≡ true
      → m.insert b hole e ≡ ok b'
      → shift_from m crc64 (suc n) hole j b ≡ shift_from m crc64 n j (j + 1) b'
  unfolding shift_from
  shift_move n hole j b b' e held near inserts = rw (read_at j b e held, shift_from, near, inserts)

  -- The end of a scan from the tree `b` with a hole at `hole`.
  pub record Shifted (n hole j : ℕ) (b : B) : Type 0 where
    pub tree : B
    pub last : ℕ
    pub returns : shift_from m crc64 n hole j b ≡ ok (tree, last)
    pub closed : Hollow crc64 (h.content tree) last (u64_max + 1)
    pub moved : Moved crc64 (h.content b) hole (h.content tree) last

  pub shift-Shifted :
      (n hole j : ℕ) (b : B)
      → j + n ≡ u64_max + 1
      → hole ≤ u64_max
      → Hollow crc64 (h.content b) hole j
      → Shifted n hole j b
  shift-Shifted zero hole j b room small g = record {
    tree = b;
    last = hole;
    returns = unfold shift_from in refl;
    closed = subst (Hollow crc64 (h.content b) hole) (omega arith) g;
    moved = Moved-refl crc64 (h.content b) hole;
  }
  shift-Shifted (suc n) hole j b room small g = elim (Option-cases (h.content b j)) [
    | inl gap ↦ record {
      tree = b;
      last = hole;
      returns = shift_stop (suc n) hole j b gap;
      closed = Hollow-end crc64 (h.content b) hole j g (u64_max + 1) (omega arith) gap;
      moved = Moved-refl crc64 (h.content b) hole;
    }
    | inr (e, held) ↦ elim (Bool-cases (leb (home_of crc64 j e) hole)) [
      | inr past ↦
          let r =
            shift-Shifted n hole (j + 1) b (omega arith) small
              (Hollow-stay crc64 (h.content b) hole j g e held past) in
          record {
            tree = r.tree;
            last = r.last;
            returns = shift_stay n hole j b e held past ∙ r.returns;
            closed = r.closed;
            moved = r.moved;
          }
      | inl near ↦
          let (b', inserts, writes) = h.insert_writes b hole e in
          let le : home_of crc64 j e ≤ hole = ground arith in
          let c = h.content b in
          let c' = h.content b' in
          let r =
            shift-Shifted n j (j + 1) b' (omega arith) (g.bound j e held)
              (Hollow-move crc64 c hole j g e held le c' writes) in
          record {
            tree = r.tree;
            last = r.last;
            returns = shift_move n hole j b b' e held near inserts ∙ r.returns;
            closed = r.closed;
            moved = Moved-trans crc64 (Moved-move crc64 c hole j g e held le c' writes) r.moved;
          }
    ]
  ]

-- Clearing the last hole leaves a table.
module _ {I : Type 0} (crc64 : Text → ℕ) (c c' : ℕ → Option (DirFileEntryRaw I)) (hole : ℕ)
    (g : Hollow crc64 c hole (u64_max + 1))
    (clears : (k : ℕ) → c' k ≡ (if k == hole then none else c k)) where
  cleared : c' hole ≡ none
  cleared = rw (clears hole, (==_iff hole hole).1 refl)

  pub elsewhere_same : (k : ℕ) → k ≢ hole → c' k ≡ c k
  elsewhere_same k ne = rw (clears k, eq-false_of_ne (k == hole) (λ q. ne ((==_iff k hole).0 q)))

  pub still_there : (k : ℕ) (e : DirFileEntryRaw I) → c' k ≡ some e → (k ≢ hole) × (c k ≡ some e)
  still_there k e q =
      let differ : k ≢ hole = λ same. none-ne-some e (sym cleared ∙ sym (ap c' same) ∙ q) in
      (differ, sym (elsewhere_same k differ) ∙ q)

  pub IsTable-clear : IsTable crc64 c'
  IsTable-clear = record {
    bound = λ k e q. g.bound k e (still_there k e q).1;
    after_home = λ k e q. let (ne, old) = still_there k e q in g.after_home k e ne old;
    no_gap = λ k e i q lo hi gap.
        let (ne, old) = still_there k e q in
        elim (ℕ_discrete i hole) [
          | yes same ↦
              let far : u64_max + 1 ≤ k = g.spans k e old (omega arith) (omega arith) in
              absurd (omega (arith, g.bound k e old))
          | no differ ↦ g.no_gap k e i ne differ old lo hi (sym (elsewhere_same i differ) ∙ gap)
        ];
    once = λ i k e f name qi qk ni nk.
        let (ne_i, old_i) = still_there i e qi in
        let (ne_k, old_k) = still_there k f qk in g.once i k e f name ne_i ne_k old_i old_k ni nk;
  }
