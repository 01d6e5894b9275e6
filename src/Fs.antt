-- ===== src/Fs.antt =====
-- The operations on a whole tree of directories (src/fs.rs), over what hyperfile, the object store
-- and the crates offer: the record `System`, a parameter. A uuid stands as its text. `others n` is
-- what other clients do to the store at the point `n` of an operation.
pub mod Remove
pub mod Link
pub mod Compaction
pub mod Attributes
pub mod Intent
pub mod Move
pub mod Recover
pub mod Orphans
pub mod Create
mod Fixture
mod Tests
use hyperdir.Base.{ℕ, Option, List, Text, Result, ok, err, other}
use hyperdir.Base.Int.{ℤ}
use hyperdir.Layout.{HyperDirLayout, dir_uri}
use hyperdir.Ondisk.{DirFileEntryRaw}
use hyperdir.Probe.{BMap}
use hyperdir.Object.{Client, always, DeleteAnswer, removed, mismatch, delete_failed}
use hyperdir.Directory.{DirStaging}
use hyperdir.Directory.Listing.{Cursor}
use hyperdir.Gc.{ChildStaging, InodeFields}

pub record System (W B R S : Type 0) : Type 0 where
  pub client : Client W
  -- `list_objects_v2`, page by page: the keys under a prefix, and the common prefixes under one.
  pub list_objects : W → Text → List (Result (List Text))
  pub list_prefixes : W → Text → List (Result (List Text))
  -- Any inode's staging, by its URI, and the raw inode.
  pub child : ChildStaging W R S
  pub fields : InodeFields R
  pub as_u8_slice : R → Text
  -- `stat_fast`: the change time in seconds.
  pub st_ctime : W → Text → Result ℤ
  -- `HyperDir::open`: the tree of the handle.
  pub open_dir : W → Text → Result B
  -- The staging of a directory's handle; `exclusive` flushes with `FlushConflictPolicy::FailFast`.
  pub dirs : Text → DirStaging W B
  pub exclusive : Text → DirStaging W B
  pub tree : BMap B (DirFileEntryRaw R)
  pub cursor : Cursor B
  pub crc64 : Text → ℕ
  pub lossy : Text → Text
  -- The engines of the base64 crate: that of the scatter keys, `STANDARD`, and
  -- `URL_SAFE_NO_PAD`.
  pub scatter_base64 : Text → Text
  pub b64_encode : Text → Text
  pub b64_decode : Text → Option Text
  pub b64url_encode : Text → Text
  pub b64url_decode : Text → Option Text
  -- `Uuid::parse_str`, and the timestamp of `Ulid::from_string`.
  pub parse_uuid : Text → Option Text
  pub ulid_timestamp : Text → Option ℕ

-- The answer to an unconditional delete.
unfoldable pub deleted : {W : Type 0} → W × DeleteAnswer → W × Result (Unit {0})
deleted (w, removed) = (w, ok tt)
deleted (w, mismatch) = (w, err other)
deleted (w, delete_failed) = (w, err other)

module _ {W B R S : Type 0} (sys : System W B R S) where
  unfoldable pub delete_object : W → Text → W × Result (Unit {0})
  unfolding deleted
  delete_object w key = deleted (sys.client.delete_object w key always)

  unfoldable pub fs_open_dir : HyperDirLayout → Text → W → Text → Result B
  unfolding dir_uri
  fs_open_dir layout bucket w uuid = sys.open_dir w (dir_uri layout bucket uuid)
