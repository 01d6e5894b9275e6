-- ===== src/Staging.antt =====
-- The scatter objects of a directory on S3 (src/s3.rs, and `path_encode` of src/lib.rs). `base64`
-- stands for the base64 crate's engine with the alphabet of the source, `ulid` for a fresh ULID's
-- text; a uuid stands as its text. `others n` is what other clients do to the store before the
-- object `n` is fetched.
pub mod Removal
pub mod Keys
pub mod Parts
pub mod Emitted
pub mod Listing
mod Tests
use hyperdir.Base.{
  ℕ, zero, suc, ◌+◌, Bool, true, false, ◌&&◌, ◌||◌, List, [], ◌∷◌, ◌++◌, take, drop, ◌==◌,
  if◌then◌else◌, Text, codes, length, invalid_input, interrupted, other, Result, ok, err, ◌>>=◌,
}
use hyperdir.Wire.{decimal}
use hyperdir.Scatter.{
  DirScatterInodeOp, create, update, pre_delete, delete, unknown, as_u8, DirScatterInode,
}
use hyperdir.Object.{
  absent, GetAnswer, body, no_such_key, get_failed, PutAnswer, stored, refused, put_failed, Client,
}

-- `path_encode`
unfoldable pub path_encode : (Text → Text) → Text → Text → Text → Text → ℕ → Text
unfolding decimal as_u8
path_encode base64 ulid dir_staging_path filename uuid op =
    dir_staging_path
    ++ (codes "/!/"
        ++ ((base64 filename
              ++ (codes "/" ++ (ulid ++ (codes "_" ++ (uuid ++ (codes "_" ++ decimal op))))))
            ++ (if op == as_u8 delete then codes ".tombstone" else codes ".inode")))

unfoldable pub scatter_inodes_path : Text → Text
scatter_inodes_path root_path = root_path ++ codes "/!/"

unfoldable pub compact_lease_path : Text → Text
compact_lease_path root_path = root_path ++ codes "/_compact.lease"

-- The answer to a bulk delete: the keys that it reports as not deleted, or a failed call.
pub data DeleteObjectsAnswer : Type 0 where
  reported : List Text → DeleteObjectsAnswer
  call_failed : DeleteObjectsAnswer

-- `delete_objects` of the client.
abbrev pub BulkDelete : Type 0 → Type 0
BulkDelete W = W → List Text → W × DeleteObjectsAnswer

abbrev pub chunk_size : ℕ
chunk_size = 1000

-- Was a chunk not deleted whole?
unfoldable pub chunk_err : DeleteObjectsAnswer → Bool
chunk_err (reported []) = false
chunk_err (reported (_ ∷ _)) = true
chunk_err call_failed = true

-- The loop over `delete_keys.chunks(1000)`, on fuel: each round takes one key at least, so that
-- their number is enough.
unfoldable pub remove_chunks : {W : Type 0} → BulkDelete W → ℕ → W → List Text → Bool → W × Bool
unfolding chunk_err
remove_chunks delete_objects fuel w [] failed = (w, failed)
remove_chunks delete_objects zero w (k ∷ ks) failed = (w, failed)
remove_chunks delete_objects (suc fuel) w (k ∷ ks) failed =
    let (w', answer) = delete_objects w (take chunk_size (k ∷ ks)) in
    remove_chunks delete_objects fuel w' (drop chunk_size (k ∷ ks)) (failed || chunk_err answer)

unfoldable pub remove_scatter_inodes :
    {W : Type 0} → BulkDelete W → W → List Text → W × Result (Unit {0})
unfolding remove_chunks
remove_scatter_inodes delete_objects w delete_keys =
    let (w', failed) = remove_chunks delete_objects (length delete_keys) w delete_keys false in
    (w', if failed then err interrupted else ok tt)

module _ {W : Type 0} (client : Client W) where
  -- A vanished object is passed over.
  unfoldable pub collect_scatter_inodes :
      (ℕ → W → W) → ℕ → W → List DirScatterInode → Result (List (DirScatterInode × Text))
  collect_scatter_inodes others n w [] = ok []
  collect_scatter_inodes others n w (s ∷ ss) =
      let rest = collect_scatter_inodes others (suc n) (others n w) ss in
      elim (client.get_object (others n w) s.key) [
        | body bytes _ ↦ do found ← rest; ok ((s, bytes) ∷ found)
        | no_such_key ↦ rest
        | get_failed ↦ err other
      ]

  -- An object that exists already counts as committed.
  unfoldable pub emit_put : W × PutAnswer → W × Result (Unit {0})
  emit_put (w, stored _) = (w, ok tt)
  emit_put (w, refused) = (w, ok tt)
  emit_put (w, put_failed) = (w, err other)

  unfoldable pub emit_scatter_event :
      (Text → Text)
      → Text
      → Text
      → W
      → Text
      → Text
      → Text
      → DirScatterInodeOp
      → W × Result (Unit {0})
  unfolding emit_put path_encode as_u8
  emit_scatter_event base64 ulid root_path w filename child_uuid buf op =
      let key = path_encode base64 ulid root_path filename child_uuid (as_u8 op) in
      let put = emit_put (client.put_object w key buf absent) in
      elim op [
        | unknown ↦ (w, err invalid_input)
        | create ↦ put
        | update ↦ put
        | pre_delete ↦ put
        | delete ↦ put
      ]
