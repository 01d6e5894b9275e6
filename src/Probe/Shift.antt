-- ===== src/Probe/Shift.antt =====
-- The backward shift of `probe_delete`: what holds of the slots while the hole moves.
use hyperdir.Base.{
  ℕ, ◌+◌, ◌≤◌, ◌<◌, true, false, ◌≡◌, ◌≢◌, refl, sym, ◌∙◌, ap, ◌⊎◌, Option, none, some, arith, leb,
  ◌==◌, if◌then◌else◌, Text, inl, inr, ==_iff, eq-false_of_ne,
}
use mathlib.Core.Option.{some-injective, none-ne-some}
use native.Mathlib.Decide.{ℕ_discrete}
use hyperdir.Ondisk.{DirFileEntryRaw}
use hyperdir.Probe.{u64_max, named, home_of}
use hyperdir.Probe.Slots.{home_of-move, IsTable}

module _ {I : Type 0} (crc64 : Text → ℕ) where
  -- Without the slot `hole` the slots are a table but for gaps at `hole`, and only entries from `j`
  -- on have such a gap.
  pub record Hollow (c : ℕ → Option (DirFileEntryRaw I)) (hole j : ℕ) : Type 0 where
    pub bound : (k : ℕ) (e : DirFileEntryRaw I) → c k ≡ some e → k ≤ u64_max
    pub after_home :
        (k : ℕ) (e : DirFileEntryRaw I) → k ≢ hole → c k ≡ some e → home_of crc64 k e ≤ k
    pub no_gap :
        (k : ℕ) (e : DirFileEntryRaw I) (i : ℕ)
        → k ≢ hole
        → i ≢ hole
        → c k ≡ some e
        → home_of crc64 k e ≤ i
        → i ≤ k
        → c i ≢ none
    pub spans :
        (k : ℕ) (e : DirFileEntryRaw I) → c k ≡ some e → home_of crc64 k e ≤ hole → hole < k → j ≤ k
    pub once :
        (i k : ℕ) (e f : DirFileEntryRaw I) (name : Text)
        → i ≢ hole
        → k ≢ hole
        → c i ≡ some e
        → c k ≡ some f
        → named e name ≡ true
        → named f name ≡ true
        → i ≡ k
    pub filled : c hole ≢ none
    pub below : hole < j

  -- Outside the hole of each, the two hold the same entries.
  pub record Moved (c : ℕ → Option (DirFileEntryRaw I)) (hole : ℕ)
      (c' : ℕ → Option (DirFileEntryRaw I)) (hole' : ℕ) : Type 0 where
    pub to :
        (k : ℕ) (e : DirFileEntryRaw I)
        → k ≢ hole
        → c k ≡ some e
        → (k' : ℕ) × (k' ≢ hole') × (c' k' ≡ some e)
    pub back :
        (k : ℕ) (e : DirFileEntryRaw I)
        → k ≢ hole'
        → c' k ≡ some e
        → (k' : ℕ) × (k' ≢ hole) × (c k' ≡ some e)

  pub Moved-refl : (c : ℕ → Option (DirFileEntryRaw I)) (hole : ℕ) → Moved c hole c hole
  Moved-refl c hole = record { to = λ k e ne q. (k, ne, q); back = λ k e ne q. (k, ne, q) }

  pub Moved-trans :
      {a b c : ℕ → Option (DirFileEntryRaw I)} {i j k : ℕ}
      → Moved a i b j
      → Moved b j c k
      → Moved a i c k
  Moved-trans x y = record {
    to = λ p e ne q. let (p₁, ne₁, q₁) = x.to p e ne q in y.to p₁ e ne₁ q₁;
    back = λ p e ne q. let (p₁, ne₁, q₁) = y.back p e ne q in x.back p₁ e ne₁ q₁;
  }

  pub IsTable-Hollow :
      (c : ℕ → Option (DirFileEntryRaw I)) (slot : ℕ) (e : DirFileEntryRaw I)
      → IsTable crc64 c
      → c slot ≡ some e
      → Hollow c slot (slot + 1)
  IsTable-Hollow c slot e t held = record {
    bound = t.bound;
    after_home = λ k f ne. t.after_home k f;
    no_gap = λ k f i ne ne'. t.no_gap k f i;
    spans = λ k f q lo lt. omega arith;
    once = λ i k f g name ne ne'. t.once i k f g name;
    filled = λ gap. none-ne-some e (sym gap ∙ held);
    below = omega arith;
  }

  module _ (c : ℕ → Option (DirFileEntryRaw I)) (hole j : ℕ) (h : Hollow c hole j) where
    -- Where the scan meets an empty slot, no entry has a gap at the hole.
    pub Hollow-end : (n : ℕ) → hole < n → c j ≡ none → Hollow c hole n
    Hollow-end n lt gap = record {
      bound = h.bound;
      after_home = h.after_home;
      no_gap = h.no_gap;
      spans = λ k e q lo past.
          let far = h.spans k e q lo past in
          let below = h.below in
          absurd (h.no_gap k e j (omega arith) (omega arith) q (omega arith) far gap);
      once = h.once;
      filled = h.filled;
      below = lt;
    }

    -- An entry whose home is past the hole stays.
    pub Hollow-stay :
        (e : DirFileEntryRaw I)
        → c j ≡ some e
        → leb (home_of crc64 j e) hole ≡ false
        → Hollow c hole (j + 1)
    Hollow-stay e held past_hole = record {
      bound = h.bound;
      after_home = h.after_home;
      no_gap = h.no_gap;
      spans = λ k f q lo past. elim (ℕ_discrete k j) [
        | no differ ↦ omega (arith, h.spans k f q lo past)
        | yes same ↦
            let f_e = some-injective f e (sym q ∙ ap c same ∙ held) in
            let lo' : home_of crc64 j e ≤ hole = rw (same, f_e) at lo in absurd (ground arith)
      ];
      once = h.once;
      filled = h.filled;
      below = omega (arith, h.below);
    }

    module _ (e : DirFileEntryRaw I) (held : c j ≡ some e) (home_le : home_of crc64 j e ≤ hole)
        (c' : ℕ → Option (DirFileEntryRaw I))
        (writes : (k : ℕ) → c' k ≡ (if k == hole then some e else c k)) where
      at_hole : c' hole ≡ some e
      at_hole = rw (writes hole, (==_iff hole hole).1 refl)

      elsewhere_same : (k : ℕ) → k ≢ hole → c' k ≡ c k
      elsewhere_same k ne =
          rw (writes k, eq-false_of_ne (k == hole) (λ q. ne ((==_iff k hole).0 q)))

      old_or_new :
          (k : ℕ) (f : DirFileEntryRaw I)
          → c' k ≡ some f
          → ((k ≡ hole) × (f ≡ e)) ⊎ ((k ≢ hole) × (c k ≡ some f))
      old_or_new k f q = elim (ℕ_discrete k hole) [
        | yes same ↦ inl (same, some-injective f e (sym q ∙ ap c' same ∙ at_hole))
        | no differ ↦ inr (differ, sym (elsewhere_same k differ) ∙ q)
      ]

      j_not_hole : j ≢ hole
      j_not_hole = omega (arith, h.below)

      home_same : home_of crc64 hole e ≡ home_of crc64 j e
      home_same = home_of-move crc64 j hole e (omega (arith, h.below))

      stays_filled : (i : ℕ) → (i ≢ hole → c i ≢ none) → c' i ≢ none
      stays_filled i old gap = elim (ℕ_discrete i hole) [
        | yes same ↦ none-ne-some e (sym gap ∙ ap c' same ∙ at_hole)
        | no differ ↦ old differ (sym (elsewhere_same i differ) ∙ gap)
      ]

      -- An entry whose home is not past the hole moves into it, and leaves a hole behind.
      pub Hollow-move : Hollow c' j (j + 1)
      Hollow-move = record {
        bound = λ k f q. elim (old_or_new k f q) [
          | inl (same, _) ↦ omega (arith, h.bound j e held, h.below)
          | inr (_, old) ↦ h.bound k f old
        ];
        after_home = λ k f ne q. elim (old_or_new k f q) [
          | inl (same, f_e) ↦ rw (same, f_e, home_same) home_le
          | inr (differ, old) ↦ h.after_home k f differ old
        ];
        no_gap = λ k f i ne ne' q lo hi. stays_filled i λ differ. elim (old_or_new k f q) [
          | inl (same, f_e) ↦
              let lo' : home_of crc64 j e ≤ i = rw (same, f_e, home_same) at lo in
              h.no_gap j e i j_not_hole differ held lo' (omega (arith, h.below))
          | inr (other, old) ↦ h.no_gap k f i other differ old lo hi
        ];
        spans = λ k f q lo past. omega arith;
        once = λ i k f g name ne ne' qi qk ni nk. elim (old_or_new i f qi) [
          | inl (i_hole, f_e) ↦ elim (old_or_new k g qk) [
            | inl (k_hole, _) ↦ i_hole ∙ sym k_hole
            | inr (differ, old) ↦
                absurd
                  (ne' (sym (h.once j k e g name j_not_hole differ held old (rw f_e at ni) nk)))
          ]
          | inr (differ_i, old_i) ↦ elim (old_or_new k g qk) [
            | inl (k_hole, g_e) ↦
                absurd (ne (h.once i j f e name differ_i j_not_hole old_i held ni (rw g_e at nk)))
            | inr (differ_k, old_k) ↦ h.once i k f g name differ_i differ_k old_i old_k ni nk
          ]
        ];
        filled = λ gap. none-ne-some e (sym gap ∙ elsewhere_same j j_not_hole ∙ held);
        below = omega arith;
      }

      pub Moved-move : Moved c hole c' j
      Moved-move = record {
        to = λ k f ne q. elim (ℕ_discrete k j) [
          | yes same ↦ (hole, λ x. j_not_hole (sym x), at_hole ∙ sym held ∙ sym (ap c same) ∙ q)
          | no differ ↦ (k, differ, elsewhere_same k ne ∙ q)
        ];
        back = λ k f ne q. elim (old_or_new k f q) [
          | inl (same, f_e) ↦ (j, j_not_hole, rw f_e held)
          | inr (differ, old) ↦ (k, differ, old)
        ];
      }
