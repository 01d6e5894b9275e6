-- ===== src/Fs/Link/Rollback.antt =====
-- How the attempts to enter a hard link end.
use hyperdir.Base.{
  ℕ, zero, suc, ◌≡◌, refl, ◌⊎◌, inl, inr, Bool, true, false, Text, ErrorKind, not_found,
  already_exists, invalid_input, invalid_data, resource_busy, directory_not_empty,
  read_only_filesystem, interrupted, other, Result, ok, err,
}
use hyperdir.Base.Int.{negsuc}
use hyperdir.Ondisk.{DirFileEntryRaw}
use hyperdir.Directory.Entries.{insert_entry_excl}
use hyperdir.Gc.{adjust_nlink}
use hyperdir.Fs.{System}
use hyperdir.Fs.Link.{undo_bump, link_entered, link_from}

module _ {W B R S : Type 0} (sys : System W B R S) (others races : ℕ → W → W)
    (child_uri parent_uri new_name : Text) (entry : DirFileEntryRaw R) where
  -- The name was entered: the last call took place on a state `v` and answered so.
  abbrev pub Entered : W → Result (Unit {0}) → Type 0
  Entered w' answer =
      (v : W) × (b : B) × (insert_entry_excl sys.tree sys.crc64 (sys.exclusive parent_uri) v
          new_name entry
        ≡ (w', ok (b, true)))
      × (answer ≡ ok tt)

  -- The bump was undone, as far as the undo succeeds, and the caller gets an error.
  abbrev pub Undone : W → Result (Unit {0}) → Type 0
  Undone w' answer =
      (v : W) × (e : ErrorKind) × (w'
        ≡ (adjust_nlink sys.child sys.fields child_uri races (negsuc 0) v).0)
      × (answer ≡ err e)

  -- The directory could not be opened again after a lost race: the bump stays.
  abbrev pub Stranded : W → Result (Unit {0}) → Type 0
  Stranded w' answer = (e : ErrorKind) × (sys.open_dir w' parent_uri ≡ err e) × (answer ≡ err e)

  abbrev pub Ended : W × Result (Unit {0}) → Type 0
  Ended r = Entered r.0 r.1 ⊎ (Undone r.0 r.1 ⊎ Stranded r.0 r.1)

  undo-Ended :
      (w : W) (e : ErrorKind)
      → Ended (undo_bump sys others races child_uri parent_uri new_name entry w e)
  unfolding undo_bump
  undo-Ended w e = inr (inl (w, e, refl, refl))

  again-Ended :
      (w : W) (again : W → W × Result (Unit {0})) (o : Result B)
      → sys.open_dir w parent_uri ≡ o
      → ((v : W) → Ended (again v))
      → Ended (
          link_entered sys others races child_uri parent_uri new_name entry
            (w, err already_exists)
            again)
  unfolding link_entered
  again-Ended w again (ok b) opened rest = rw opened (rest w)
  again-Ended w again (err e) opened rest = rw opened (inr (inr (e, opened, refl)))

  entered-Ended :
      (v : W) (r : W × Result (B × Bool)) (again : W → W × Result (Unit {0}))
      → insert_entry_excl sys.tree sys.crc64 (sys.exclusive parent_uri) v new_name entry ≡ r
      → ((v : W) → Ended (again v))
      → Ended (link_entered sys others races child_uri parent_uri new_name entry r again)
  unfolding link_entered
  entered-Ended v (w, ok (b, true)) again h rest = inl (v, b, h, refl)
  entered-Ended v (w, ok (b, false)) again h rest = undo-Ended w already_exists
  entered-Ended v (w, err already_exists) again h rest =
      again-Ended w again (sys.open_dir w parent_uri) refl rest
  entered-Ended v (w, err not_found) again h rest = undo-Ended w not_found
  entered-Ended v (w, err invalid_input) again h rest = undo-Ended w invalid_input
  entered-Ended v (w, err invalid_data) again h rest = undo-Ended w invalid_data
  entered-Ended v (w, err resource_busy) again h rest = undo-Ended w resource_busy
  entered-Ended v (w, err directory_not_empty) again h rest = undo-Ended w directory_not_empty
  entered-Ended v (w, err read_only_filesystem) again h rest = undo-Ended w read_only_filesystem
  entered-Ended v (w, err interrupted) again h rest = undo-Ended w interrupted
  entered-Ended v (w, err other) again h rest = undo-Ended w other

  -- After the bump of the link count, whatever other clients do, `fs_link` ends in one of three
  -- ways: its last call entered the name and it succeeds; or it fails and its last call is the
  -- decrement of the count; or it fails because the directory could not be opened again after a
  -- lost race, and then the count is not decremented.
  pub link_from-Ended :
      (retries n : ℕ) (w : W)
      → Ended (link_from sys others races child_uri parent_uri new_name entry retries n w)
  unfolding link_from
  link_from-Ended zero n w = undo-Ended w resource_busy
  link_from-Ended (suc retries) n w =
      entered-Ended (others n w) _ _ refl (link_from-Ended retries (suc n))
