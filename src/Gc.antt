-- ===== src/Gc.antt =====
-- Link counts and the garbage collector (`adjust_nlink`, `current_nlink`, `reclaim_child_prefix`
-- and `fs_gc` of src/fs.rs). The raw inode and the calls on a child's own staging are hyperfile's:
-- parameters. The clock is read once, and is an argument.
pub mod Collect
pub mod Retention
pub mod Frame
pub mod Counted
mod Tests
use hyperdir.Base.{
  ℕ, zero, suc, ◌+◌, ◌-◌, ◌*◌, ◌/◌, ◌%◌, ◌^◌, Bool, true, false, not, Option, none, some, List, [],
  ◌∷◌, ltb, leb, ◌==◌, if◌then◌else◌, Text, text_eq, ErrorKind, not_found, already_exists,
  resource_busy, Result, ok, err, ◌>>=◌,
}
use hyperdir.Base.Int.{ℤ, pos_part, ◌+ℤ◌}
use hyperdir.Bodies.{of_bits}
use hyperdir.Directory.{◌>>>=◌}

-- A child's own staging, by its URI: opening it, its raw inode with the state that a flush is
-- conditional on, and the removal of its objects.
pub record ChildStaging (W R S : Type 0) : Type 0 where
  pub open_child : W → Text → Result (Unit {0})
  pub load_inode : W → Text → Result (R × S)
  pub flush_inode : W → Text → R → S → W × Result (Unit {0})
  pub unlink : W → Text → W × Result (Unit {0})

-- The fields of the raw inode that the code reads and writes; `touch` sets the change time.
pub record InodeFields (R : Type 0) : Type 0 where
  pub i_nlink : R → ℕ
  pub set_nlink : R → ℕ → R
  pub i_mode : R → ℕ
  pub touch : R → R
  pub from_u8_slice : Text → R

abbrev pub nlink_retries : ℕ
nlink_retries = 5

-- `mode & S_IFMT == S_IFDIR`
unfoldable pub is_dir_mode : ℕ → Bool
is_dir_mode mode = mode / 2 ^ 12 % 2 ^ 4 == 4

-- `(i_nlink as i64 + delta).max(0) as u64`, for sums in the range of `i64`.
unfoldable pub new_count : ℕ → ℤ → ℕ
unfolding of_bits ◌+ℤ◌
new_count nlink delta = pos_part (of_bits nlink +ℤ delta)

module _ {W R S : Type 0} (child : ChildStaging W R S) (fields : InodeFields R)
    (child_uri : Text) where
  abbrev pub with_count : R → ℤ → R
  with_count raw delta = fields.touch (fields.set_nlink raw (new_count (fields.i_nlink raw) delta))

  -- What follows the flush: `AlreadyExists` is a lost race.
  unfoldable pub after_flush : ℕ → W × Result (Unit {0}) → (W → W × Result ℕ) → W × Result ℕ
  after_flush new_nlink (w, ok _) again = (w, ok new_nlink)
  after_flush new_nlink (w, err already_exists) again = again w
  after_flush new_nlink (w, err e) again = (w, err e)

  -- After the load; `acted` is what other clients do before the flush.
  unfoldable pub adjust_loaded :
      ℤ → W → (W → W) → (W → W × Result ℕ) → Result (R × S) → W × Result ℕ
  unfolding after_flush
  adjust_loaded delta w acted again (err e) = (w, err e)
  adjust_loaded delta w acted again (ok (raw, state)) =
      after_flush (new_count (fields.i_nlink raw) delta)
        (child.flush_inode (acted w) child_uri (with_count raw delta) state) again

  -- The loop of `adjust_nlink`; `others n` is what other clients do between the load and the flush
  -- of the attempt `n`.
  unfoldable pub adjust_from : (ℕ → W → W) → ℤ → ℕ → ℕ → W → W × Result ℕ
  unfolding adjust_loaded
  adjust_from others delta zero n w = (w, err resource_busy)
  adjust_from others delta (suc retries) n w =
      adjust_loaded delta w (others n) (adjust_from others delta retries (suc n))
        (child.load_inode w child_uri)

  unfoldable pub adjust_nlink : (ℕ → W → W) → ℤ → W → W × Result ℕ
  unfolding adjust_from
  adjust_nlink others delta w =
      (w, child.open_child w child_uri) >>>= λ w _. adjust_from others delta nlink_retries 0 w

  -- `None` where the inode is gone.
  unfoldable pub none_if_gone : {A : Type 0} → Result A → Result (Option A)
  none_if_gone (ok a) = ok (some a)
  none_if_gone (err not_found) = ok none
  none_if_gone (err e) = err e

  unfoldable pub current_nlink : W → Result (Option ℕ)
  unfolding none_if_gone
  current_nlink w = none_if_gone (do
    opened ← child.open_child w child_uri
    loaded ← child.load_inode w child_uri
    ok (fields.i_nlink loaded.0))

  -- `NotFound` counts as done.
  unfoldable pub done_if_gone : W × Result (Unit {0}) → W × Result (Unit {0})
  done_if_gone (w, ok _) = (w, ok tt)
  done_if_gone (w, err not_found) = (w, ok tt)
  done_if_gone (w, err e) = (w, err e)

  unfoldable pub reclaim_child_prefix : W → W × Result (Unit {0})
  unfolding done_if_gone
  reclaim_child_prefix w =
      done_if_gone ((w, child.open_child w child_uri) >>>= λ w _. child.unlink w child_uri)
