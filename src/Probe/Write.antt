-- ===== src/Probe/Write.antt =====
-- Writing one slot of a well-formed index under its own name.
use hyperdir.Base.{
  ℕ, ◌≤◌, ◌<◌, true, false, ◌≡◌, ◌≢◌, refl, sym, ◌∙◌, ap, ◌⊎◌, Option, none, some, arith, ◌==◌,
  if◌then◌else◌, Text, text_eq, text_eq_iff, Bool-cases, inl, inr, ==_iff, eq-false_of_ne,
}
use mathlib.Core.Path.{subst}
use mathlib.Core.Option.{some-injective, none-ne-some}
use native.Mathlib.Decide.{ℕ_discrete, dec_le}
use hyperdir.Ondisk.{DirFileEntryRaw}
use hyperdir.Probe.{u64_max, named, home_of}
use hyperdir.Probe.Slots.{home_of-named, named_unique, IsTable, Models, update}

module _ {I : Type 0} (crc64 : Text → ℕ) (c c' : ℕ → Option (DirFileEntryRaw I))
    (t : IsTable crc64 c) (name : Text) (v : DirFileEntryRaw I) (own : named v name ≡ true) (k : ℕ)
    (small : k ≤ u64_max) (home_le : crc64 name ≤ k)
    (taken : (j : ℕ)
      → crc64 name ≤ j
      → j < k
      → (e : DirFileEntryRaw I) × (c j ≡ some e) × (named e name ≡ false))
    (usable : (c k ≡ none) ⊎ ((e : DirFileEntryRaw I) × (c k ≡ some e) × (named e name ≡ true)))
    (writes : (j : ℕ) → c' j ≡ (if j == k then some v else c j)) where
  at_k : c' k ≡ some v
  at_k = rw (writes k, (==_iff k k).1 refl)

  elsewhere_same : (j : ℕ) → j ≢ k → c' j ≡ c j
  elsewhere_same j ne = rw (writes j, eq-false_of_ne (j == k) (λ e. ne ((==_iff j k).0 e)))

  -- No other slot has the name.
  only_k : (j : ℕ) (e : DirFileEntryRaw I) → c j ≡ some e → named e name ≡ true → j ≡ k
  only_k j e held is = elim usable [
    | inr (f, held_k, is_k) ↦ t.once j k e f name held held_k is is_k
    | inl gap ↦
        let home_j : crc64 name ≤ j =
          subst (λ x. x ≤ j) (home_of-named crc64 j e name is) (t.after_home j e held) in
        let before : j < k = before_gap gap (λ le.
          t.no_gap j e k held (subst (λ x. x ≤ k) (sym (home_of-named crc64 j e name is)) home_le)
            le) in
        let (f, held_f, not_f) = taken j home_j before in
        absurd (clash f (sym held ∙ held_f) is not_f)
  ]
    where
      before_gap : c k ≡ none → (k ≤ j → c k ≢ none) → j < k
      before_gap gap never = elim (dec_le k j) [
        | yes le ↦ absurd (never le gap)
        | no gt ↦ omega arith
      ]

      clash :
          (f : DirFileEntryRaw I) → some e ≡ some f → named e name ≡ true → named f name ≡ false → ⊥
      clash f same y n = cc (some-injective e f same)

  old_or_new :
      (j : ℕ) (e : DirFileEntryRaw I)
      → c' j ≡ some e
      → ((j ≡ k) × (e ≡ v)) ⊎ ((j ≢ k) × (c j ≡ some e))
  old_or_new j e q = elim (ℕ_discrete j k) [
    | yes same ↦ inl (same, some-injective e v (sym q ∙ ap c' same ∙ at_k))
    | no differ ↦ inr (differ, sym (elsewhere_same j differ) ∙ q)
  ]

  home_k : home_of crc64 k v ≡ crc64 name
  home_k = home_of-named crc64 k v name own

  stays_taken : (i : ℕ) → (i ≢ k → c i ≢ none) → c' i ≢ none
  stays_taken i old gap = elim (ℕ_discrete i k) [
    | yes same ↦ none-ne-some v (sym gap ∙ ap c' same ∙ at_k)
    | no differ ↦ old differ (sym (elsewhere_same i differ) ∙ gap)
  ]

  pub write-IsTable : IsTable crc64 c'
  write-IsTable = record {
    bound = λ j e q. elim (old_or_new j e q) [
      | inl (same, _) ↦ rw same small
      | inr (_, held) ↦ t.bound j e held
    ];
    after_home = λ j e q. elim (old_or_new j e q) [
      | inl (same, is_v) ↦ rw (same, is_v, home_k) home_le
      | inr (_, held) ↦ t.after_home j e held
    ];
    no_gap = λ j e i q lo hi. stays_taken i λ differ. elim (old_or_new j e q) [
      | inr (_, held) ↦ t.no_gap j e i held lo hi
      | inl (same, is_v) ↦
          let low : crc64 name ≤ i = rw (same, is_v, home_k) at lo in
          let (f, held, _) = taken i low (omega arith) in λ gap. none-ne-some f (sym gap ∙ held)
    ];
    once = λ i j e f n qi qj ni nj. elim (old_or_new i e qi) [
      | inl (i_k, e_v) ↦ elim (old_or_new j f qj) [
        | inl (j_k, _) ↦ i_k ∙ sym j_k
        | inr (_, held) ↦
            let is : n ≡ name = named_unique v n name (rw e_v at ni) own in
            i_k ∙ sym (only_k j f held (rw is at nj))
      ]
      | inr (_, held_i) ↦ elim (old_or_new j f qj) [
        | inl (j_k, f_v) ↦
            let is : n ≡ name = named_unique v n name (rw f_v at nj) own in
            only_k i e held_i (rw is at ni) ∙ sym j_k
        | inr (_, held_j) ↦ t.once i j e f n held_i held_j ni nj
      ]
    ];
  }

  not_in_k :
      (n : Text) (j : ℕ) (e : DirFileEntryRaw I)
      → n ≢ name
      → c j ≡ some e
      → named e n ≡ true
      → j ≢ k
  not_in_k n j e differ held is same = elim usable [
    | inl gap ↦ none-ne-some e (sym gap ∙ sym (ap c same) ∙ held)
    | inr (f, held_k, is_k) ↦
        let e_f = some-injective e f (sym held ∙ ap c same ∙ held_k) in
        differ (named_unique f n name (rw e_f at is) is_k)
  ]

  -- The index then stands for the map with the name bound to the new entry.
  pub write-Models :
      (f : Text → Option (DirFileEntryRaw I))
      → Models crc64 c f
      → Models crc64 c' (update f name (some v))
  write-Models f w = record {
    table = write-IsTable;
    present = λ n e q. elim (Bool-cases (text_eq n name)) [
      | inl same ↦
          let e_v : v ≡ e = some-injective v e (rw same at q) in
          let n_name = (text_eq_iff n name).0 same in
          record { slot = k; holds = rw (← e_v) at_k; is_named = rw (← e_v, n_name) own }
      | inr differ ↦
          let a = w.present n e (rw differ at q) in
          let apart : n ≢ name = λ x. cc ((text_eq_iff n name).1 x) in
          record {
            slot = a.slot;
            holds = elsewhere_same a.slot (not_in_k n a.slot e apart a.holds a.is_named) ∙ a.holds;
            is_named = a.is_named;
          }
    ];
    absent = λ n j e q held. elim (Bool-cases (text_eq n name)) [
      | inl same ↦ absurd (none-ne-some v (sym (rw same at q)))
      | inr differ ↦ elim (old_or_new j e held) [
        | inr (_, old) ↦ w.absent n j e (rw differ at q) old
        | inl (_, e_v) ↦
            eq-false_of_ne (named e n)
              λ is. cc ((text_eq_iff n name).1 (named_unique v n name (rw e_v at is) own))
      ]
    ];
  }
