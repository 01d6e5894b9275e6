-- ===== src/Gc/Frame.antt =====
-- What a change of a link count leaves alone (`adjust_nlink` of src/fs.rs).
use hyperdir.Base.{
  ℕ, zero, suc, ◌≡◌, refl, ◌∙◌, Text, not_found, already_exists, invalid_input, invalid_data,
  resource_busy, directory_not_empty, read_only_filesystem, interrupted, other, Result, ok, err,
}
use hyperdir.Base.Int.{ℤ}
use hyperdir.Directory.{◌>>>=◌}
use hyperdir.Gc.{
  ChildStaging, InodeFields, after_flush, adjust_loaded, adjust_from, adjust_nlink, nlink_retries,
}

-- `view` is what neither a flush of the child nor another client changes.
module _ {W R S A : Type 0} (child : ChildStaging W R S) (fields : InodeFields R) (child_uri : Text)
    (others : ℕ → W → W) (delta : ℤ) (view : W → A)
    (flush_frame : (v : W) (uri : Text) (raw : R) (state : S)
      → view (child.flush_inode v uri raw state).0 ≡ view v)
    (others_frame : (n : ℕ) (v : W) → view (others n v) ≡ view v) where
  after_flush-frame :
      (n : ℕ) (r : W × Result (Unit {0})) (again : W → W × Result ℕ)
      → ((v : W) → view (again v).0 ≡ view v)
      → view (after_flush child fields child_uri n r again).0 ≡ view r.0
  unfolding after_flush
  after_flush-frame n (w, ok u) again later = refl
  after_flush-frame n (w, err already_exists) again later = later w
  after_flush-frame n (w, err not_found) again later = refl
  after_flush-frame n (w, err invalid_input) again later = refl
  after_flush-frame n (w, err invalid_data) again later = refl
  after_flush-frame n (w, err resource_busy) again later = refl
  after_flush-frame n (w, err directory_not_empty) again later = refl
  after_flush-frame n (w, err read_only_filesystem) again later = refl
  after_flush-frame n (w, err interrupted) again later = refl
  after_flush-frame n (w, err other) again later = refl

  adjust_loaded-frame :
      (n : ℕ) (w : W) (again : W → W × Result ℕ) (l : Result (R × S))
      → ((v : W) → view (again v).0 ≡ view v)
      → view (adjust_loaded child fields child_uri delta w (others n) again l).0 ≡ view w
  unfolding adjust_loaded
  adjust_loaded-frame n w again (err e) later = refl
  adjust_loaded-frame n w again (ok (raw, state)) later =
      after_flush-frame _ _ again later ∙ flush_frame _ child_uri _ state ∙ others_frame n w

  adjust_from-frame :
      (retries n : ℕ) (w : W)
      → view (adjust_from child fields child_uri others delta retries n w).0 ≡ view w
  unfolding adjust_from
  adjust_from-frame zero n w = refl
  adjust_from-frame (suc retries) n w =
      adjust_loaded-frame n w _ (child.load_inode w child_uri) (adjust_from-frame retries (suc n))

  pub adjust_nlink-frame :
      (w : W) → view (adjust_nlink child fields child_uri others delta w).0 ≡ view w
  unfolding adjust_nlink
  adjust_nlink-frame w = opened (child.open_child w child_uri)
    where
      opened :
          (r : Result (Unit {0}))
          → view
              ((w, r) >>>= λ v _.
                adjust_from child fields child_uri others delta nlink_retries 0 v).0
            ≡ view w
      opened (ok u) = adjust_from-frame nlink_retries 0 w
      opened (err e) = refl
