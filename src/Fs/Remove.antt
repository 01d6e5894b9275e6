-- ===== src/Fs/Remove.antt =====
-- Removing a name: `fs_unlink`, the first phase of a delete, `fs_rmdir` and `fs_reclaim` of
-- src/fs.rs.
pub mod Marked
use hyperdir.Base.{
  ℕ, ◌-◌, ◌^◌, Bool, true, Option, none, some, min, leb, if◌then◌else◌, Text, directory_not_empty,
  Result, ok, err,
}
use hyperdir.Base.Int.{ℤ, pos, saturating_add}
use hyperdir.Layout.{HyperDirLayout, dir_key, dir_uri, file_uri}
use hyperdir.Bodies.{build_predelete_body}
use hyperdir.Scatter.{pre_delete}
use hyperdir.Directory.{◌>>>=◌}
use hyperdir.Directory.Compact.{is_empty}
use hyperdir.Directory.Listing.{read_dir}
use hyperdir.Staging.{emit_scatter_event}
use hyperdir.Gc.{current_nlink, reclaim_child_prefix}
use hyperdir.Fs.{System, fs_open_dir}

-- A `Duration` in milliseconds as an `i64`.
abbrev pub duration_ms : ℕ → ℤ
duration_ms millis = pos (min millis (2 ^ 63 - 1))

-- `retention_until_unix_ms`
unfoldable pub deadline : ℤ → Option ℕ → ℤ
unfolding saturating_add
deadline now_ms none = pos 0
deadline now_ms (some millis) = saturating_add now_ms (duration_ms millis)

module _ {W B R S : Type 0} (sys : System W B R S) (layout : HyperDirLayout) (bucket : Text) where
  -- At the clock `now_ms`, with `ulid` as the fresh ULID's text.
  unfoldable pub fs_unlink :
      ℤ → Text → W → Text → Text → Text → Bool → Option ℕ → W × Result (Unit {0})
  unfolding deadline build_predelete_body emit_scatter_event dir_key dir_uri
  fs_unlink now_ms ulid w parent_dir_uuid name child_uuid child_is_dir retention =
      (w, sys.child.open_child w (dir_uri layout bucket parent_dir_uuid)) >>>= λ w _.
      emit_scatter_event sys.client sys.scatter_base64 ulid (dir_key layout parent_dir_uuid) w name
        child_uuid (build_predelete_body child_is_dir (deadline now_ms retention)) pre_delete

  unfoldable pub fs_rmdir :
      (ℕ → W → W) → ℤ → Text → W → Text → Text → Text → Option ℕ → W × Result (Unit {0})
  unfolding fs_open_dir fs_unlink read_dir dir_uri
  fs_rmdir others now_ms ulid w parent_dir_uuid name child_dir_uuid retention =
      (w, fs_open_dir sys layout bucket w child_dir_uuid) >>>= λ w _.
      read_dir sys.tree sys.cursor (sys.dirs (dir_uri layout bucket child_dir_uuid))
        sys.fields.from_u8_slice sys.lossy (λ i. i) others w
      >>>= λ w entries.
          if is_empty entries
          then fs_unlink now_ms ulid w parent_dir_uuid name child_dir_uuid true retention
          else (w, err directory_not_empty)

  -- What is done with a displaced file of `nlink` links, or of no inode.
  unfoldable pub reclaim_unlinked : W → Text → Option ℕ → W × Result (Unit {0})
  unfolding reclaim_child_prefix
  reclaim_unlinked w uri none = (w, ok tt)
  reclaim_unlinked w uri (some n) =
      if leb n 1 then reclaim_child_prefix sys.child sys.fields uri w else (w, ok tt)

  unfoldable pub fs_reclaim : W → Text → Bool → W × Result (Unit {0})
  unfolding reclaim_unlinked reclaim_child_prefix current_nlink dir_uri file_uri
  fs_reclaim w child_uuid child_is_dir =
      if child_is_dir
      then reclaim_child_prefix sys.child sys.fields (dir_uri layout bucket child_uuid) w
      else (w, current_nlink sys.child sys.fields (file_uri layout bucket child_uuid) w)
        >>>= λ w nlink. reclaim_unlinked w (file_uri layout bucket child_uuid) nlink
