-- ===== src/Gc/Counted.antt =====
-- A link count changes in one step.
use hyperdir.Base.{
  ℕ, zero, suc, ◌≡◌, refl, ◌⊎◌, inl, inr, Text, not_found, already_exists, invalid_input,
  invalid_data, resource_busy, directory_not_empty, read_only_filesystem, interrupted, other,
  Result, ok, err,
}
use hyperdir.Base.Int.{ℤ, pos, negsuc, pos_part, ◌+ℤ◌}
use hyperdir.Bodies.{of_bits}
use hyperdir.Directory.{chain_ok}
use hyperdir.Gc.{
  ChildStaging, InodeFields, new_count, with_count, after_flush, adjust_loaded, adjust_from,
  adjust_nlink, nlink_retries,
}

module _ {W R S : Type 0} (child : ChildStaging W R S) (fields : InodeFields R) (child_uri : Text)
    (others : ℕ → W → W) (delta : ℤ) where
  -- The sum of a count, as an `i64`, and the delta, or zero where the sum is negative.
  abbrev pub IsSum : ℕ → ℕ → Type 0
  IsSum nlink count =
      (of_bits nlink +ℤ delta ≡ pos count)
      ⊎ ((n : ℕ) × (of_bits nlink +ℤ delta ≡ negsuc n) × (count ≡ 0))

  new_count-IsSum : (nlink : ℕ) → IsSum nlink (new_count nlink delta)
  unfolding new_count
  new_count-IsSum nlink = of_sum (of_bits nlink +ℤ delta)
    where
      of_sum : (z : ℤ) → (z ≡ pos (pos_part z)) ⊎ ((n : ℕ) × (z ≡ negsuc n) × (pos_part z ≡ 0))
      of_sum (pos n) = inl refl
      of_sum (negsuc n) = inr (n, refl, refl)

  -- The inode that a load showed in the state `v`, and the flush of it with its count changed, on
  -- the state token of that load.
  abbrev pub Adjusted : W → ℕ → Type 0
  Adjusted w' count =
      (v : W) × (n : ℕ) × (raw : R) × (state : S) × (child.load_inode v child_uri ≡ ok (raw, state))
      × (child.flush_inode (others n v) child_uri (fields.touch (fields.set_nlink raw count)) state
          ≡ (w', ok tt))
      × IsSum (fields.i_nlink raw) count

  Adjusted-flushed :
      (v : W) (n : ℕ) (raw : R) (state : S) (w' : W) (count : ℕ)
      → child.load_inode v child_uri ≡ ok (raw, state)
      → child.flush_inode (others n v) child_uri (with_count child fields child_uri raw delta) state
        ≡ (w', ok tt)
      → count ≡ new_count (fields.i_nlink raw) delta
      → Adjusted w' count
  Adjusted-flushed v n raw state w' count loads flushes counts =
      (v, n, raw, state, loads, rw counts flushes, rw counts (new_count-IsSum (fields.i_nlink raw)))

  after_flush-ok :
      (n : ℕ) (r : W × Result (Unit {0})) (again : W → W × Result ℕ) (w' : W) (count : ℕ)
      → after_flush child fields child_uri n r again ≡ (w', ok count)
      → ((r ≡ (w', ok tt)) × (count ≡ n)) ⊎ ((v : W) × (again v ≡ (w', ok count)))
  unfolding after_flush
  after_flush-ok n (w, ok u) again w' count q = inl (cc, cc)
  after_flush-ok n (w, err already_exists) again w' count q = inr (w, q)
  after_flush-ok n (w, err not_found) again w' count q = cc
  after_flush-ok n (w, err invalid_input) again w' count q = cc
  after_flush-ok n (w, err invalid_data) again w' count q = cc
  after_flush-ok n (w, err resource_busy) again w' count q = cc
  after_flush-ok n (w, err directory_not_empty) again w' count q = cc
  after_flush-ok n (w, err read_only_filesystem) again w' count q = cc
  after_flush-ok n (w, err interrupted) again w' count q = cc
  after_flush-ok n (w, err other) again w' count q = cc

  adjust_step :
      (n : ℕ) (w w' : W) (count : ℕ) (again : W → W × Result ℕ) (l : Result (R × S))
      → child.load_inode w child_uri ≡ l
      → adjust_loaded child fields child_uri delta w (others n) again l ≡ (w', ok count)
      → Adjusted w' count ⊎ ((v : W) × (again v ≡ (w', ok count)))
  unfolding adjust_loaded
  adjust_step n w w' count again (err e) loads q = cc
  adjust_step n w w' count again (ok (raw, state)) loads q =
      elim (after_flush-ok (new_count (fields.i_nlink raw) delta)
        (child.flush_inode (others n w) child_uri (with_count child fields child_uri raw delta)
          state)
        again w' count q) [
          | inl (flushes, counts) ↦
              inl (Adjusted-flushed w n raw state w' count loads flushes counts)
          | inr next ↦ inr next
        ]

  adjust_from-Adjusted :
      (retries n : ℕ) (w w' : W) (count : ℕ)
      → adjust_from child fields child_uri others delta retries n w ≡ (w', ok count)
      → Adjusted w' count
  unfolding adjust_from
  adjust_from-Adjusted zero n w w' count q = cc
  adjust_from-Adjusted (suc retries) n w w' count q =
      elim (adjust_step n w w' count _ (child.load_inode w child_uri) refl q) [
        | inl done ↦ done
        | inr (v, next) ↦ adjust_from-Adjusted retries (suc n) v w' count next
      ]

  -- Whatever other clients do between the load and the flush: when `adjust_nlink` answers a count,
  -- then the last flush took place, of an inode that was loaded with its count changed by the
  -- delta as an `i64`, or set to zero where that is negative, and on the state that this load
  -- returned; the answer is the count that was flushed.
  pub adjust_nlink-Adjusted :
      (w w' : W) (count : ℕ)
      → adjust_nlink child fields child_uri others delta w ≡ (w', ok count)
      → Adjusted w' count
  unfolding adjust_nlink
  adjust_nlink-Adjusted w w' count q =
      let (v, opened, opens, rest) =
        chain_ok (w, child.open_child w child_uri)
          (λ w _. adjust_from child fields child_uri others delta nlink_retries 0 w) w' count q in
      adjust_from-Adjusted nlink_retries 0 v w' count rest
