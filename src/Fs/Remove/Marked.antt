-- ===== src/Fs/Remove/Marked.antt =====
-- What `fs_unlink` leaves for the second phase of a delete.
use hyperdir.Base.{ℕ, ◌≡◌, Bool, Option, none, some, [], ◌∷◌, arith, Text}
use hyperdir.Base.Int.{ℤ, IsI64, saturating_add-IsI64}
use hyperdir.Layout.{HyperDirLayout, dir_key}
use hyperdir.Bodies.{build_predelete_body}
use hyperdir.Scatter.{pre_delete, as_u8, DirScatterInode}
use hyperdir.Object.{absent, refused, IsStore}
use hyperdir.Staging.{path_encode}
use hyperdir.Directory.Changes.{predeletes_of}
use hyperdir.Fs.{System}
use hyperdir.Fs.Remove.{duration_ms, deadline}

pub deadline-IsI64 : (now_ms : ℤ) (retention : Option ℕ) → IsI64 (deadline now_ms retention)
unfolding deadline
deadline-IsI64 now_ms none = omega arith
deadline-IsI64 now_ms (some millis) = saturating_add-IsI64 now_ms (duration_ms millis)

module _ {W B R S : Type 0} (sys : System W B R S) (store : IsStore sys.client)
    (layout : HyperDirLayout) (bucket : Text) (now_ms : ℤ) (ulid : Text) (w w' : W)
    (parent name uuid : Text) (is_dir : Bool) (retention : Option ℕ) where
  abbrev pub marker_key : Text
  marker_key =
      path_encode sys.scatter_base64 ulid (dir_key layout parent) name uuid (as_u8 pre_delete)

  -- An object that the fold reads as the marker of the child with its kind and the deadline, under
  -- a key that was free.
  abbrev pub Marks : Type 0
  Marks =
      (bytes : Text) × (tag : Text) × (store.content w marker_key ≡ none)
      × (store.content w' marker_key ≡ some (bytes, tag))
      × ((s : DirScatterInode)
          → predeletes_of [] ((s, bytes) ∷ [])
            ≡ (s.filename, (s.uuid, is_dir, deadline now_ms retention)) ∷ [])

  abbrev pub marker : Text
  marker = build_predelete_body is_dir (deadline now_ms retention)

  -- The store refused to put the marker.
  abbrev pub WasThere : Type 0
  WasThere = sys.client.put_object w marker_key marker absent ≡ (w', refused)
