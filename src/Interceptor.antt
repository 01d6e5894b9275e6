-- ===== src/Interceptor.antt =====
-- The scatter-first hooks of src/interceptor.rs: what happens in the parent directory before and
-- after hyperfile writes a child's inode. The parent's staging stands as its root path.
pub mod Committed
mod Tests
use hyperdir.Base.{ℕ, Option, none, some, Text, Result, ok, err}
use hyperdir.Scatter.{DirScatterInodeOp, create, update}
use hyperdir.Object.{Client}
use hyperdir.Staging.{emit_scatter_event}

-- `FlushInodeFlag` of hyperfile.
pub data FlushInodeFlag : Type 0 where
  flag_create flag_update flag_delete flag_ignore flag_unknown : FlushInodeFlag

pub record ScatterFirstInterceptor : Type 0 where
  pub parent_dir_path : Text
  pub name : Text
  pub uuid : Text

-- The operation that a flag is scattered as, if any.
unfoldable pub op_of : FlushInodeFlag → Option DirScatterInodeOp
op_of flag_create = some create
op_of flag_update = some update
op_of flag_delete = none
op_of flag_ignore = none
op_of flag_unknown = none

module _ {W : Type 0} (client : Client W) (base64 : Text → Text)
    (hook : ScatterFirstInterceptor) where
  unfoldable pub emit_op : Text → W → Text → Option DirScatterInodeOp → W × Result (Unit {0})
  unfolding emit_scatter_event
  emit_op ulid w payload none = (w, ok tt)
  emit_op ulid w payload (some op) =
      emit_scatter_event client base64 ulid hook.parent_dir_path w hook.name hook.uuid payload op

  unfoldable pub before_flush_inode : Text → W → Text → FlushInodeFlag → W × Result (Unit {0})
  unfolding emit_op op_of
  before_flush_inode ulid w payload flag = emit_op ulid w payload (op_of flag)

  unfoldable pub after_flush_inode : W → Text → FlushInodeFlag → W × Result (Unit {0})
  after_flush_inode w payload flag = (w, ok tt)

  unfoldable pub after_remove_inode : W → W × Result (Unit {0})
  after_remove_inode w = (w, ok tt)
