-- ===== src/Probe/Remove.antt =====
-- `probe_delete` refines the removal of a name from a finite map.
use hyperdir.Base.{
  ℕ, ◌+◌, ◌-◌, ◌≤◌, Bool, true, false, ◌≡◌, ◌≢◌, refl, sym, ◌∙◌, ap, Option, none, some, arith,
  ◌==◌, ◌>>=◌, if◌then◌else◌, Text, text_eq, text_eq_iff, ok, Bool-cases, Option-cases, inl, inr,
  eq-false_of_ne,
}
use mathlib.Core.Option.{some-injective, none-ne-some}
use hyperdir.Ondisk.{DirFileEntryRaw}
use hyperdir.Probe.{u64_max, BMap, named, probe_delete}
use hyperdir.Probe.Slots.{IsMap, named_unique, At, Models, update}
use hyperdir.Probe.Lookup.{probe_lookup-held, probe_lookup-absent}
use hyperdir.Probe.Shift.{IsTable-Hollow}
use hyperdir.Probe.Delete.{Shifted, shift-Shifted, IsTable-clear, still_there, elsewhere_same}

abbrev pub is_some : {V : Type 0} → Option V → Bool
is_some none = false
is_some (some _) = true

module _ {I B : Type 0} (m : BMap B (DirFileEntryRaw I)) (crc64 : Text → ℕ) (h : IsMap m) (b : B)
    (f : Text → Option (DirFileEntryRaw I)) (name : Text) (w : Models crc64 (h.content b) f)
    (small : crc64 name ≤ u64_max) where
  -- The name is unbound, the answer says whether it was bound, and all else is as before.
  abbrev pub Removed : Type 0
  Removed =
      (b' : B) × (probe_delete m crc64 b name ≡ ok (b', is_some (f name)))
      × Models crc64 (h.content b') (update f name none)

  Removed-absent : f name ≡ none → Removed
  unfolding probe_delete
  Removed-absent gap = (
    b,
    rw (probe_lookup-absent m crc64 h b name (λ k e. w.absent name k e gap), gap) refl,
    record {
      table = w.table;
      present = λ n e q. elim (Bool-cases (text_eq n name)) [
        | inl same ↦ absurd (none-ne-some e (rw same at q))
        | inr differ ↦ w.present n e (rw differ at q)
      ];
      absent = λ n k e q held. elim (Bool-cases (text_eq n name)) [
        | inl same ↦ w.absent n k e (rw ((text_eq_iff n name).0 same) gap) held
        | inr differ ↦ w.absent n k e (rw differ at q) held
      ];
    },
  )

  module _ (e : DirFileEntryRaw I) (a : At crc64 (h.content b) name e) where
    scan : Shifted m crc64 h (u64_max - a.slot) a.slot (a.slot + 1) b
    scan =
        shift-Shifted m crc64 h (u64_max - a.slot) a.slot (a.slot + 1) b
          (omega (arith, w.table.bound a.slot e a.holds)) (w.table.bound a.slot e a.holds)
          (IsTable-Hollow crc64 (h.content b) a.slot e w.table a.holds)

    -- The slot of another name is not the deleted slot.
    apart :
        (n : Text) (k : ℕ) (x : DirFileEntryRaw I)
        → n ≢ name
        → h.content b k ≡ some x
        → named x n ≡ true
        → k ≢ a.slot
    apart n k x differ held is same =
        let x_e = some-injective x e (sym held ∙ ap (h.content b) same ∙ a.holds) in
        differ (named_unique e n name (rw x_e at is) a.is_named)

    Models-removed :
        (c : ℕ → Option (DirFileEntryRaw I))
        → ((k : ℕ) → c k ≡ (if k == scan.last then none else h.content scan.tree k))
        → Models crc64 c (update f name none)
    Models-removed c clears = record {
      table = IsTable-clear crc64 (h.content scan.tree) c scan.last scan.closed clears;
      present = λ n x q. elim (Bool-cases (text_eq n name)) [
        | inl same ↦ absurd (none-ne-some x (rw same at q))
        | inr differ ↦
            let old = w.present n x (rw differ at q) in
            let ne : n ≢ name = λ y. cc ((text_eq_iff n name).1 y) in
            let (k, off, held) =
              scan.moved.to old.slot x (apart n old.slot x ne old.holds old.is_named) old.holds in
            record {
              slot = k;
              holds =
                  elsewhere_same crc64 (h.content scan.tree) c scan.last scan.closed clears k off
                  ∙ held;
              is_named = old.is_named;
            }
      ];
      absent = λ n k x q held.
          let (off, there) =
            still_there crc64 (h.content scan.tree) c scan.last scan.closed clears k x held in
          let (k₀, off₀, old) = scan.moved.back k x off there in
          elim (Bool-cases (text_eq n name)) [
            | inr differ ↦ w.absent n k₀ x (rw differ at q) old
            | inl same ↦ eq-false_of_ne (named x n) λ is. off₀ (
                w.table.once k₀ a.slot x e name old a.holds (rw ((text_eq_iff n name).0 same) at is)
                  a.is_named)
          ];
    }

    Removed-held : f name ≡ some e → Removed
    unfolding probe_delete
    Removed-held bound =
        let filled = scan.closed.filled in
        let (b', deletes, clears) = h.delete_clears scan.tree scan.last filled in
        (
          b',
          rw
              (
                probe_lookup-held m crc64 h b w.table name a.slot e small a.holds a.is_named,
                ◌>>=◌,
                scan.returns,
                deletes,
                bound,
              )
              refl,
          Models-removed (h.content b') clears,
        )

  -- On a well-formed index that stands for the map `f`, `probe_delete` succeeds, says whether the
  -- name was bound, and returns a well-formed index that stands for `f` without the name.
  pub probe_delete-Models : Removed
  probe_delete-Models = elim (Option-cases (f name)) [
    | inl gap ↦ Removed-absent gap
    | inr (e, bound) ↦ Removed-held e (w.present name e bound) bound
  ]
