-- ===== src/Staging/Removal.antt =====
-- A removal that succeeds has removed every key, in whatever chunks.
use hyperdir.Base.{
  ℕ, zero, suc, ◌-◌, ◌≤◌, Bool, true, false, ◌≡◌, refl, sym, ◌∙◌, List, [], ◌∷◌, arith, length,
  take, drop, if◌then◌else◌, Text, interrupted, Result, ok, err, All,
}
use mathlib.Core.Path.{subst}
use mathlib.Core.Bool.{true≢false}
use hyperdir.Staging.{
  DeleteObjectsAnswer, reported, call_failed, BulkDelete, chunk_size, chunk_err, remove_chunks,
  remove_scatter_inodes,
}

-- The documented behaviour of a bulk delete: keys that it does not report are gone, and no key
-- comes to be.
pub record IsBulkDelete {W : Type 0} (delete_objects : BulkDelete W) : Type 0 where
  pub present : W → Text → Bool
  pub removes :
      (w w' : W) (keys : List Text)
      → delete_objects w keys ≡ (w', reported [])
      → All (λ k. present w' k ≡ false) keys
  pub creates_none :
      (w : W) (keys : List Text) (k : Text)
      → present w k ≡ false
      → present (delete_objects w keys).0 k ≡ false

length-drop : {A : Type 0} (n : ℕ) (xs : List A) → length (drop n xs) ≡ length xs - n
length-drop zero xs = omega arith
length-drop (suc n) [] = omega arith
length-drop (suc n) (x ∷ xs) = omega (arith, length-drop n xs)

All-split :
    {A : Type 0} (P : A → Type 0) (n : ℕ) (xs : List A)
    → All P (take n xs)
    → All P (drop n xs)
    → All P xs
All-split P zero xs front back = back
All-split P (suc n) [] front back = tt
All-split P (suc n) (x ∷ xs) (p, front) back = (p, All-split P n xs front back)

All-map :
    {A : Type 0} (P Q : A → Type 0) → ((a : A) → P a → Q a) → (xs : List A) → All P xs → All Q xs
All-map P Q f [] a = tt
All-map P Q f (x ∷ xs) (p, a) = (f x p, All-map P Q f xs a)

module _ {W : Type 0} (delete_objects : BulkDelete W) (bulk : IsBulkDelete delete_objects) where
  chunks-keep :
      (fuel : ℕ) (w : W) (ks : List Text) (failed : Bool) (k : Text)
      → bulk.present w k ≡ false
      → bulk.present (remove_chunks delete_objects fuel w ks failed).0 k ≡ false
  unfolding remove_chunks
  chunks-keep fuel w [] failed k gone = gone
  chunks-keep zero w (j ∷ ks) failed k gone = gone
  chunks-keep (suc fuel) w (j ∷ ks) failed k gone =
      chunks-keep fuel _ (drop chunk_size (j ∷ ks)) _ k
        (bulk.creates_none w (take chunk_size (j ∷ ks)) k gone)

  chunks-failed :
      (fuel : ℕ) (w : W) (ks : List Text) → (remove_chunks delete_objects fuel w ks true).1 ≡ true
  unfolding remove_chunks
  chunks-failed fuel w [] = refl
  chunks-failed zero w (j ∷ ks) = refl
  chunks-failed (suc fuel) w (j ∷ ks) = chunks-failed fuel _ (drop chunk_size (j ∷ ks))

  -- The keys of a list are gone after the rounds on `back`.
  abbrev Gone : ℕ → W → List Text → Bool → List Text → Type 0
  Gone fuel w back failed keys =
      All (λ k. bulk.present (remove_chunks delete_objects fuel w back failed).0 k ≡ false) keys

  one_round :
      (fuel : ℕ) (w w' : W) (front back : List Text) (a : DeleteObjectsAnswer)
      → delete_objects w front ≡ (w', a)
      → ((remove_chunks delete_objects fuel w' back false).1 ≡ false → Gone fuel w' back false back)
      → (remove_chunks delete_objects fuel w' back (chunk_err a)).1 ≡ false
      → Gone fuel w' back (chunk_err a) front × Gone fuel w' back (chunk_err a) back
  unfolding chunk_err
  one_round fuel w w' front back (reported []) call rest h = (
    All-map _ _ (λ k. chunks-keep fuel w' back false k) front (bulk.removes w w' front call),
    rest h,
  )
  one_round fuel w w' front back (reported (x ∷ xs)) call rest h =
      absurd (true≢false (sym (chunks-failed fuel w' back) ∙ h))
  one_round fuel w w' front back call_failed call rest h =
      absurd (true≢false (sym (chunks-failed fuel w' back) ∙ h))

  chunks-remove :
      (fuel : ℕ) (w : W) (ks : List Text)
      → length ks ≤ fuel
      → (remove_chunks delete_objects fuel w ks false).1 ≡ false
      → Gone fuel w ks false ks
  unfolding remove_chunks
  chunks-remove fuel w [] enough h = tt
  chunks-remove zero w (j ∷ ks) enough h = absurd (omega arith)
  chunks-remove (suc fuel) w (j ∷ ks) enough h =
      let front = take chunk_size (j ∷ ks) in
      let back = drop chunk_size (j ∷ ks) in
      let call = delete_objects w front in
      let (gone, left) =
        one_round fuel w call.0 front back call.1 refl
          (chunks-remove fuel call.0 back (omega (arith, length-drop chunk_size (j ∷ ks), enough)))
          h in
      All-split _ chunk_size (j ∷ ks) gone left

  -- With a bulk delete that removes every key when it reports none, and that creates none: when
  -- `remove_scatter_inodes` answers `Ok(())`, no key of the list is left in the store, however
  -- many chunks the list takes.
  pub remove_scatter_inodes-Gone :
      (w w' : W) (keys : List Text)
      → remove_scatter_inodes delete_objects w keys ≡ (w', ok tt)
      → All (λ k. bulk.present w' k ≡ false) keys
  unfolding remove_scatter_inodes
  remove_scatter_inodes-Gone w w' keys h =
      let (at, fine) = of_result (remove_chunks delete_objects (length keys) w keys false) h in
      subst (λ v. All (λ k. bulk.present v k ≡ false) keys) at
        (chunks-remove (length keys) w keys (omega arith) fine)
    where
      answer : W × Bool → W × Result (Unit {0})
      answer p = (p.0, if p.1 then err interrupted else ok tt)

      of_result : (p : W × Bool) → answer p ≡ (w', ok tt) → (p.0 ≡ w') × (p.1 ≡ false)
      of_result (v, true) q = cc
      of_result (v, false) q = (cc, refl)
