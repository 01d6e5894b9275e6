-- ===== src/Fs/Recover/Completed.antt =====
-- A rename that was interrupted behind its commit is completed by the recovery.
use hyperdir.Base.{ℕ, ◌≤◌, ◌≡◌, ◌≢◌, sym, ap, ◌∙◌, true, Option, Text, codes, Result, ok}
use hyperdir.Base.Int.{ℤ}
use hyperdir.Layout.{HyperDirLayout}
use hyperdir.Ondisk.{DirFileEntryRaw}
use hyperdir.Probe.{u64_max, named}
use hyperdir.Probe.Slots.{IsMap}
use hyperdir.Object.{always, DeleteAnswer, removed, mismatch, delete_failed, body}
use hyperdir.Directory.{◌>>>=◌, chain_ok}
use hyperdir.Gc.Collect.{object_bytes}
use hyperdir.Fs.{System, deleted, delete_object}
use hyperdir.Fs.Intent.{RenameIntent, serialize}
use hyperdir.Fs.Intent.RoundTrip.{IsRename, parse-serialize}
use hyperdir.Fs.Move.{moved_entry, apply_rename_intent}
use hyperdir.Fs.Move.Applied.{
  IsDirs, Stands, src_uri, dst_uri, with_name, without_name, apply_rename_intent-Moved,
}
use hyperdir.Fs.Recover.{ends_with, recover_rename, recover_key}

module _ {W B R S : Type 0} (sys : System W B R S) (h : IsMap sys.tree) (dirs : IsDirs sys)
    (small : (name : Text) → sys.crc64 name ≤ u64_max) (layout : HyperDirLayout) (bucket : Text)
    (intent : RenameIntent)
    (fits : named (moved_entry sys layout bucket intent) intent.dst_name ≡ true)
    (f_src f_dst : Text → Option (DirFileEntryRaw R)) where
  -- The source without the old name, the destination with the new one.
  abbrev pub Completed : W → Type 0
  Completed w =
      Stands sys h dirs small w (dst_uri sys h dirs small layout bucket intent fits f_src f_dst)
        (with_name sys h dirs small layout bucket intent fits f_src f_dst)
      × Stands sys h dirs small w (src_uri sys h dirs small layout bucket intent fits f_src f_dst)
          (without_name sys h dirs small layout bucket intent fits f_src f_dst)

  -- The removal of an object leaves the directories.
  abbrev pub LeavesDirs : Type 0
  LeavesDirs =
      (w : W) (key uri : Text)
      → sys.open_dir (sys.client.delete_object w key always).0 uri ≡ sys.open_dir w uri

  deleted-state : (p : W × DeleteAnswer) (w' : W) (u : Unit {0}) → deleted p ≡ (w', ok u) → p.0 ≡ w'
  unfolding deleted
  deleted-state (w, removed) w' u q = cc
  deleted-state (w, mismatch) w' u q = cc
  deleted-state (w, delete_failed) w' u q = cc

  recover_rename-Completed :
      (key : Text) (w w' : W) (k : ℕ)
      → LeavesDirs
      → intent.src_parent ≢ intent.dst_parent
      → Stands sys h dirs small w
          (src_uri sys h dirs small layout bucket intent fits f_src f_dst)
          f_src
      → Stands sys h dirs small w
          (dst_uri sys h dirs small layout bucket intent fits f_src f_dst)
          f_dst
      → recover_rename sys layout bucket w key (ok intent) ≡ (w', ok k)
      → (k ≡ 1) × Completed w'
  unfolding recover_rename delete_object
  recover_rename-Completed key w w' k leaves apart src dst q =
      let (v, u, applies, rest) =
        chain_ok (apply_rename_intent sys layout bucket w intent)
          (λ w _. delete_object sys w key >>>= λ w _. (w, ok 1)) w' k q in
      let (x, y, deletes, last) = chain_ok (delete_object sys v key) (λ w _. (w, ok 1)) w' k rest in
      let ((b, opens, models), (b', opens', models'), others) =
        apply_rename_intent-Moved sys h dirs small layout bucket intent fits f_src f_dst w v apart
          src dst applies in
      let state : (sys.client.delete_object v key always).0 ≡ w' =
        deleted-state (sys.client.delete_object v key always) x y deletes ∙ same x w' k last in
      let left : (uri : Text) → sys.open_dir w' uri ≡ sys.open_dir v uri =
        λ uri. ap (λ z. sys.open_dir z uri) (sym state) ∙ leaves v key uri in
      (one x w' k last, ((b, left _ ∙ opens, models), (b', left _ ∙ opens', models')))
    where
      same : (x w' : W) (k : ℕ) → ◌≡◌ {A = W × Result ℕ} (x, ok 1) (w', ok k) → x ≡ w'
      same x w' k e = cc

      one : (x w' : W) (k : ℕ) → ◌≡◌ {A = W × Result ℕ} (x, ok 1) (w', ok k) → k ≡ 1
      one x w' k e = cc

  -- Where the object under a key that ends in `.intent` holds the body of a rename intent that reads
  -- back, the removal of an object leaves the directories, and the two directories stand for finite
  -- maps, whether the destination had the new name already or not, and the source the old one or
  -- not: when the recovery of this key succeeds, it counts one, the destination has the new name for
  -- the moved entry and the source has not the old one.
  pub recover_key-Completed :
      (now_ms : ℤ) (key tag : Text) (w w' : W) (k : ℕ)
      → IsRename sys.b64_encode sys.b64_decode sys.parse_uuid intent
      → LeavesDirs
      → ends_with (codes ".intent") key ≡ true
      → sys.client.get_object w key ≡ body (serialize sys.b64_encode intent) tag
      → intent.src_parent ≢ intent.dst_parent
      → Stands sys h dirs small w
          (src_uri sys h dirs small layout bucket intent fits f_src f_dst)
          f_src
      → Stands sys h dirs small w
          (dst_uri sys h dirs small layout bucket intent fits f_src f_dst)
          f_dst
      → recover_key sys layout bucket now_ms w key ≡ (w', ok k)
      → (k ≡ 1) × Completed w'
  unfolding recover_key object_bytes
  recover_key-Completed now_ms key tag w w' k reads leaves is_intent holds apart src dst q =
      recover_rename-Completed key w w' k leaves apart src dst (
        rw
          (
            is_intent,
            holds,
            parse-serialize sys.b64_encode sys.b64_decode sys.parse_uuid intent reads,
          )
          at q)
