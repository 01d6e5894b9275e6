-- ===== src/Fs/Create.antt =====
-- Creating and opening (`fs_create_*`, `fs_open_root`, `fs_open_or_create_with_default_opt` of
-- src/fs.rs and `do_open_or_create` of src/hyper.rs). hyperfile's constructors are the record
-- `Creation`: a creation calls the hooks that it is given when it writes the inode. `uuid` is the
-- fresh uuid's text.
use hyperdir.Base.{Bool, true, not_found, Text, Result, ok, err}
use hyperdir.Layout.{HyperDirLayout, dir_key, dir_uri, file_uri, root_dir_uri}
use hyperdir.Directory.{◌>>>=◌}
use hyperdir.Interceptor.{ScatterFirstInterceptor}
use hyperdir.Fs.{System}

-- Handles `H` of directories and `F` of files, by URI; `M` is the flags and the mode.
pub record Creation (W M H F : Type 0) : Type 0 where
  pub create : W → Text → M → W × Result H
  pub create_with_interceptor : W → Text → M → ScatterFirstInterceptor → W × Result H
  pub create_file : W → Text → M → ScatterFirstInterceptor → W × Result F
  pub flush_file : W → F → W × Result F
  pub open_handle : W → Text → M → W × Result H

-- `ScatterFirstInterceptor::new`
unfoldable pub interceptor_new : Text → Text → Text → ScatterFirstInterceptor
interceptor_new parent_dir_path name uuid = record {
  parent_dir_path = parent_dir_path;
  name = name;
  uuid = uuid;
}

module _ {W M H F B R S : Type 0} (sys : System W B R S) (creation : Creation W M H F)
    (layout : HyperDirLayout) (bucket : Text) where
  unfoldable pub fs_create_default : Text → W → Text → Text → M → W × Result (H × Text)
  unfolding dir_key dir_uri interceptor_new
  fs_create_default uuid w parent_dir_uuid name mode =
      (w, sys.child.open_child w (dir_uri layout bucket parent_dir_uuid)) >>>= λ w _.
      creation.create_with_interceptor w (dir_uri layout bucket uuid) mode
        (interceptor_new (dir_key layout parent_dir_uuid) name uuid)
      >>>= λ w dir. (w, ok (dir, uuid))

  -- The flush writes the inode, and by its hooks the event of the parent.
  unfoldable pub fs_create_file : Text → W → Text → Text → M → W × Result (F × Text)
  unfolding dir_key dir_uri file_uri interceptor_new
  fs_create_file uuid w parent_dir_uuid name mode =
      (w, sys.child.open_child w (dir_uri layout bucket parent_dir_uuid)) >>>= λ w _.
      creation.create_file w (file_uri layout bucket uuid) mode
        (interceptor_new (dir_key layout parent_dir_uuid) name uuid)
      >>>= λ w file. creation.flush_file w file >>>= λ w flushed. (w, ok (flushed, uuid))

  unfoldable pub fs_create_root : W → M → W × Result H
  unfolding root_dir_uri
  fs_create_root w mode = creation.create w (root_dir_uri layout bucket) mode

  unfoldable pub fs_open_root : W → M → W × Result H
  unfolding root_dir_uri
  fs_open_root w mode = creation.open_handle w (root_dir_uri layout bucket) mode

-- Only a missing directory is created.
unfoldable pub or_create : {W H : Type 0} → Bool → W × Result H → (W → W × Result H) → W × Result H
or_create create (w, ok h) again = (w, ok h)
or_create true (w, err not_found) again = again w
or_create create (w, err e) again = (w, err e)

unfoldable pub do_open_or_create :
    {W M H F : Type 0} → Creation W M H F → W → Text → M → Bool → W × Result H
unfolding or_create
do_open_or_create creation w uri mode create =
    or_create create (creation.open_handle w uri mode) (λ w. creation.create w uri mode)
