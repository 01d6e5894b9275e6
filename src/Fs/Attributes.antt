-- ===== src/Fs/Attributes.antt =====
-- Extended attributes, one object each under the child's prefix (src/fs.rs).
pub mod RoundTrip
use hyperdir.Base.{
  ℕ, Bool, true, false, Option, none, some, List, [], ◌∷◌, ◌++◌, if◌then◌else◌, Text, codes, other,
  Result, ok, err, ◌>>=◌,
}
use hyperdir.Layout.{HyperDirLayout, dir_key, file_key}
use hyperdir.Ondisk.Utf8.{is_utf8}
use hyperdir.Wire.{strip_prefix}
use hyperdir.Object.{
  always, GetAnswer, body, no_such_key, get_failed, PutAnswer, stored, refused, put_failed,
}
use hyperdir.Directory.{◌>>>=◌}
use hyperdir.Fs.{System, delete_object}

-- The answer of a put on no condition that is read as an error or not.
unfoldable pub put_done : {W : Type 0} → W × PutAnswer → W × Result (Unit {0})
put_done (w, stored _) = (w, ok tt)
put_done (w, refused) = (w, err other)
put_done (w, put_failed) = (w, err other)

-- A value, or none where there is no object.
unfoldable pub attribute : GetAnswer → Result (Option Text)
attribute (body bytes _) = ok (some bytes)
attribute no_such_key = ok none
attribute get_failed = err other

-- Texts that are UTF-8.
abbrev pub utf8_only : Option Text → Option Text
utf8_only none = none
utf8_only (some s) = if is_utf8 s then some s else none

abbrev pub keep_some : Option Text → List Text → List Text
keep_some none names = names
keep_some (some name) names = name ∷ names

unfoldable pub xattr_prefix : HyperDirLayout → Text → Bool → Text
unfolding dir_key file_key
xattr_prefix layout uuid is_dir =
    (if is_dir then dir_key layout uuid else file_key layout uuid) ++ codes "/_xattr/"

module _ {W B R S : Type 0} (sys : System W B R S) (layout : HyperDirLayout) (uuid : Text)
    (is_dir : Bool) where
  unfoldable pub xattr_key : Text → Text
  unfolding xattr_prefix
  xattr_key name = xattr_prefix layout uuid is_dir ++ sys.b64url_encode name

  unfoldable pub fs_setxattr : W → Text → Text → W × Result (Unit {0})
  unfolding xattr_key put_done
  fs_setxattr w name value = put_done (sys.client.put_object w (xattr_key name) value always)

  unfoldable pub fs_getxattr : W → Text → Result (Option Text)
  unfolding xattr_key attribute
  fs_getxattr w name = attribute (sys.client.get_object w (xattr_key name))

  -- The name that a key under the prefix stands for.
  unfoldable pub xattr_name : Option Text → Option Text
  unfolding is_utf8
  xattr_name none = none
  xattr_name (some []) = none
  xattr_name (some (c ∷ cs)) = utf8_only (sys.b64url_decode (c ∷ cs))

  unfoldable pub xattr_names : List Text → List Text
  unfolding xattr_name strip_prefix xattr_prefix
  xattr_names [] = []
  xattr_names (key ∷ keys) =
      keep_some (xattr_name (strip_prefix (xattr_prefix layout uuid is_dir) key)) (xattr_names keys)

  unfoldable pub xattr_pages : List (Result (List Text)) → Result (List Text)
  unfolding xattr_names
  xattr_pages [] = ok []
  xattr_pages (err _ ∷ pages) = err other
  xattr_pages (ok keys ∷ pages) = do rest ← xattr_pages pages; ok (xattr_names keys ++ rest)

  unfoldable pub fs_listxattr : W → Result (List Text)
  unfolding xattr_pages xattr_prefix
  fs_listxattr w = xattr_pages (sys.list_objects w (xattr_prefix layout uuid is_dir))

  -- After the attribute is looked up.
  unfoldable pub remove_found : W → Text → Option Text → W × Result Bool
  unfolding delete_object xattr_key
  remove_found w name none = (w, ok false)
  remove_found w name (some _) = delete_object sys w (xattr_key name) >>>= λ w _. (w, ok true)

  unfoldable pub fs_removexattr : W → Text → W × Result Bool
  unfolding remove_found fs_getxattr
  fs_removexattr w name = (w, fs_getxattr w name) >>>= λ w value. remove_found w name value
