-- ===== src/Interceptor/Committed.antt =====
-- What a child's flush commits in its parent directory.
use hyperdir.Base.{◌≡◌, ◌⊎◌, none, some, Text}
use hyperdir.Scatter.{DirScatterInodeOp, create, update, as_u8}
use hyperdir.Object.{absent, refused, Client, IsStore}
use hyperdir.Staging.{path_encode}
use hyperdir.Interceptor.{
  FlushInodeFlag, flag_create, flag_update, flag_delete, flag_ignore, flag_unknown,
  ScatterFirstInterceptor,
}

module _ {W : Type 0} (client : Client W) (store : IsStore client) (base64 : Text → Text)
    (hook : ScatterFirstInterceptor) (ulid : Text) (w : W) (payload : Text) where
  -- The key of the event under the parent's prefix.
  abbrev pub event_key : DirScatterInodeOp → Text
  event_key op = path_encode base64 ulid hook.parent_dir_path hook.name hook.uuid (as_u8 op)

  -- The event stands in the store: its object was free and holds the inode, or it was there.
  abbrev pub Committed : DirScatterInodeOp → W → Type 0
  Committed op w' =
      ((tag : Text) × (store.content w (event_key op) ≡ none)
        × (store.content w' (event_key op) ≡ some (payload, tag)))
      ⊎ (client.put_object w (event_key op) payload absent ≡ (w', refused))

  -- What a flag asks of the parent: an event, or that it stays as it is.
  abbrev pub Observed : FlushInodeFlag → W → Type 0
  Observed flag_create w' = Committed create w'
  Observed flag_update w' = Committed update w'
  Observed flag_delete w' = w' ≡ w
  Observed flag_ignore w' = w' ≡ w
  Observed flag_unknown w' = w' ≡ w
