-- ===== src/Fs/Link.antt =====
-- Hard links: `fs_link` of src/fs.rs. The count goes up before the name is entered, and down again
-- where it is not.
pub mod Rollback
use hyperdir.Base.{
  ℕ, zero, suc, ◌+◌, Bool, true, false, if◌then◌else◌, Text, ErrorKind, not_found, already_exists,
  invalid_input, resource_busy, Result, ok, err,
}
use hyperdir.Base.Int.{ℤ, pos, negsuc}
use hyperdir.Layout.{HyperDirLayout, dir_uri, file_uri}
use hyperdir.Ondisk.{DirFileEntryRaw, DirFileEntry, from}
use hyperdir.Directory.{◌>>>=◌}
use hyperdir.Directory.Entries.{read_entry, insert_entry_excl}
use hyperdir.Gc.{is_dir_mode, adjust_nlink, nlink_retries}
use hyperdir.Fs.{System}

abbrev pub is_ok : {A : Type 0} → Result A → Bool
is_ok (ok _) = true
is_ok (err _) = false

-- `others n` acts before the attempt `n` to enter the name, and `races` on the count's own loop.
module _ {W B R S : Type 0} (sys : System W B R S) (others races : ℕ → W → W)
    (child_uri dir_uri_text new_name : Text) (entry : DirFileEntryRaw R) where
  -- The undo of the bump, whose own answer is dropped.
  unfoldable pub undo_bump : W → ErrorKind → W × Result (Unit {0})
  unfolding adjust_nlink
  undo_bump w e = ((adjust_nlink sys.child sys.fields child_uri races (negsuc 0) w).0, err e)

  -- After an attempt to enter the name; a lost race opens the directory again.
  unfoldable pub link_entered :
      W × Result (B × Bool) → (W → W × Result (Unit {0})) → W × Result (Unit {0})
  unfolding undo_bump
  link_entered (w, ok (_, true)) again = (w, ok tt)
  link_entered (w, ok (_, false)) again = undo_bump w already_exists
  link_entered (w, err already_exists) again = (w, sys.open_dir w dir_uri_text) >>>= λ w _. again w
  link_entered (w, err e) again = undo_bump w e

  -- The loop over the attempts.
  unfoldable pub link_from : ℕ → ℕ → W → W × Result (Unit {0})
  unfolding link_entered insert_entry_excl
  link_from zero n w = undo_bump w resource_busy
  link_from (suc retries) n w =
      link_entered
        (insert_entry_excl sys.tree sys.crc64 (sys.exclusive dir_uri_text) (others n w) new_name
          entry)
        (link_from retries (suc n))

module _ {W B R S : Type 0} (sys : System W B R S) (layout : HyperDirLayout) (bucket : Text)
    (others races : ℕ → W → W) where
  -- After the target's inode is loaded.
  unfoldable pub link_target : W → Text → Text → Text → R → W × Result (Unit {0})
  unfolding link_from is_dir_mode adjust_nlink from dir_uri file_uri
  link_target w parent_dir_uuid new_name target_file_uuid raw =
      let child_uri = file_uri layout bucket target_file_uuid in
      let bumped = adjust_nlink sys.child sys.fields child_uri races (pos 1) w >>>= λ w new_nlink.
      link_from sys others races child_uri (dir_uri layout bucket parent_dir_uuid) new_name
        (from (sys.fields.set_nlink raw new_nlink) target_file_uuid new_name) nlink_retries 0 w in
      if is_dir_mode (sys.fields.i_mode raw) then (w, err invalid_input) else bumped

  unfoldable pub fs_link : W → Text → Text → Text → W × Result (Unit {0})
  unfolding link_target read_entry dir_uri file_uri
  fs_link w parent_dir_uuid new_name target_file_uuid =
      let parent = dir_uri layout bucket parent_dir_uuid in
      let child_uri = file_uri layout bucket target_file_uuid in
      (w, sys.open_dir w parent) >>>= λ w _.
      let linked = (w, sys.child.open_child w child_uri) >>>= λ w _.
      (w, sys.child.load_inode w child_uri) >>>= λ w loaded.
      link_target w parent_dir_uuid new_name target_file_uuid loaded.0 in
      if is_ok (read_entry sys.tree sys.crc64 (sys.exclusive parent) (λ i. i) w new_name)
      then (w, err already_exists)
      else linked
