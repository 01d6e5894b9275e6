-- ===== src/Fs/Move.antt =====
-- A rename across two directories (src/fs.rs): the claim of the source by an intent object, the
-- forward steps, and the removal of the intent. `others` acts between the calls of a claim: at
-- `2 * n` before the put of the attempt `n`, at `2 * n + 1` after it.
pub mod Applied
pub mod Claim
mod Tests
use hyperdir.Base.{
  ℕ, zero, suc, ◌+◌, ◌*◌, Bool, true, false, ◌++◌, if◌then◌else◌, Text, codes, text_eq, not_found,
  resource_busy, other, Result, ok, err,
}
use hyperdir.Layout.{HyperDirLayout, dir_uri, txn_key}
use hyperdir.Ondisk.{DirFileEntryRaw, from}
use hyperdir.Object.{absent, PutAnswer, stored, refused, put_failed}
use hyperdir.Directory.{◌>>>=◌}
use hyperdir.Directory.Entries.{read_entry_raw, insert_entry, remove_entry}
use hyperdir.Fs.{System, delete_object, fs_open_dir}
use hyperdir.Fs.Intent.{RenameIntent, serialize}

abbrev pub rename_claim_retries : ℕ
rename_claim_retries = 8

module _ {W B R S : Type 0} (sys : System W B R S) (layout : HyperDirLayout) (bucket : Text) where
  -- The entry of the intent under its new name.
  unfoldable pub moved_entry : RenameIntent → DirFileEntryRaw R
  unfolding from
  moved_entry intent = from (sys.fields.from_u8_slice intent.inode) intent.child intent.dst_name

  -- The destination, which then has the name.
  unfoldable pub apply_destination : W → RenameIntent → W × Result (Unit {0})
  unfolding moved_entry fs_open_dir insert_entry dir_uri
  apply_destination w intent = (w, fs_open_dir sys layout bucket w intent.dst_parent) >>>= λ w _.
      insert_entry sys.tree sys.crc64 (sys.dirs (dir_uri layout bucket intent.dst_parent)) w
        intent.dst_name (moved_entry intent)
      >>>= λ w _. (w, ok tt)

  -- The source, which then has not.
  unfoldable pub apply_source : W → RenameIntent → W × Result (Unit {0})
  unfolding fs_open_dir remove_entry dir_uri
  apply_source w intent = (w, fs_open_dir sys layout bucket w intent.src_parent) >>>= λ w _.
      remove_entry sys.tree sys.crc64 (sys.dirs (dir_uri layout bucket intent.src_parent)) w
        intent.src_name
      >>>= λ w _. (w, ok tt)

  unfoldable pub apply_rename_intent : W → RenameIntent → W × Result (Unit {0})
  unfolding apply_destination apply_source
  apply_rename_intent w intent = apply_destination w intent >>>= λ w _. apply_source w intent

  -- The claim is given up.
  unfoldable pub give_up : W → Text → {A : Type 0} → Result A → W × Result A
  unfolding delete_object
  give_up w key answer = ((delete_object sys w key).0, answer)

  -- The second look at the source, once the claim is won.
  unfoldable pub recheck :
      W → Text → RenameIntent → Result (DirFileEntryRaw R) → W × Result (Text × RenameIntent)
  unfolding give_up text_eq
  recheck w key intent (ok e) =
      if text_eq e.uuid intent.child then (w, ok (key, intent)) else give_up w key (err not_found)
  recheck w key intent (err e) = give_up w key (err e)

  -- After the put of the intent.
  unfoldable pub claimed :
      Text
      → RenameIntent
      → W × PutAnswer
      → (W → W)
      → (W → W × Result (Text × RenameIntent))
      → W × Result (Text × RenameIntent)
  unfolding recheck fs_open_dir read_entry_raw dir_uri
  claimed key intent (w, stored _) after again =
      (after w, fs_open_dir sys layout bucket (after w) intent.src_parent) >>>= λ w b.
      recheck w key intent (
        read_entry_raw sys.tree sys.crc64 (sys.dirs (dir_uri layout bucket intent.src_parent)) b
          intent.src_name)
  claimed key intent (w, refused) after again = again (after w)
  claimed key intent (w, put_failed) after again = (w, err other)

  module _ (others : ℕ → W → W) (src_parent_uuid src_name dst_parent_uuid dst_name : Text) where
    -- What the intent says of an entry.
    unfoldable pub intent_of : DirFileEntryRaw R → RenameIntent
    intent_of entry = record {
      src_parent = src_parent_uuid;
      src_name = src_name;
      dst_parent = dst_parent_uuid;
      dst_name = dst_name;
      child = entry.uuid;
      inode = sys.as_u8_slice entry.inode;
    }

    -- The key of the source's claim.
    unfoldable pub claim_key : Text
    unfolding txn_key
    claim_key = txn_key layout (src_parent_uuid ++ codes "_" ++ sys.b64url_encode src_name)

    -- The loop over the attempts.
    unfoldable pub claim_from : ℕ → ℕ → W → W × Result (Text × RenameIntent)
    unfolding claimed claim_key intent_of serialize fs_open_dir read_entry_raw dir_uri
    claim_from zero n w = (w, err resource_busy)
    claim_from (suc retries) n w =
        let again = claim_from retries (suc n) in
        (w, fs_open_dir sys layout bucket w src_parent_uuid) >>>= λ w b.
        (
          w,
          read_entry_raw sys.tree sys.crc64 (sys.dirs (dir_uri layout bucket src_parent_uuid)) b
              src_name,
        )
        >>>= λ w entry.
            claimed claim_key (intent_of entry)
              (sys.client.put_object (others (2 * n) w) claim_key
                (serialize sys.b64_encode (intent_of entry)) absent)
              (others (2 * n + 1)) again

    unfoldable pub emit_rename_intent : W → W × Result (Text × RenameIntent)
    unfolding claim_from
    emit_rename_intent w = claim_from rename_claim_retries 0 w

    unfoldable pub fs_rename_across : W → W × Result (Unit {0})
    unfolding emit_rename_intent apply_rename_intent delete_object
    fs_rename_across w = emit_rename_intent w >>>= λ w claim.
        apply_rename_intent w claim.1 >>>= λ w _. ((delete_object sys w claim.0).0, ok tt)
