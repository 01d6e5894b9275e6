-- ===== src/Fs/Attributes/RoundTrip.antt =====
-- Attribute names are read back from their keys.
use hyperdir.Base.{◌≡◌, ◌≢◌, refl, Bool, true, some, List, [], ◌∷◌, ◌++◌, arith, All, map, Text}
use hyperdir.Layout.{HyperDirLayout}
use hyperdir.Ondisk.Utf8.{is_utf8}
use hyperdir.Wire.{strip_prefix}
use hyperdir.Fs.{System}
use hyperdir.Fs.Attributes.{xattr_prefix, xattr_key, xattr_name, xattr_names}

strip_prefix-append : (p s : Text) → strip_prefix p (p ++ s) ≡ some s
unfolding strip_prefix
strip_prefix-append [] s = refl
strip_prefix-append (c ∷ p) s = ground (arith, strip_prefix-append p s)

module _ {W B R S : Type 0} (sys : System W B R S) (layout : HyperDirLayout) (uuid : Text)
    (is_dir : Bool) where
  -- A name in UTF-8 that the engine encodes as a text that is not empty and decodes again.
  abbrev pub IsName : Text → Type 0
  IsName name =
      (is_utf8 name ≡ true)
      × (sys.b64url_encode name ≢ [])
      × (sys.b64url_decode (sys.b64url_encode name) ≡ some name)

  name_of_code :
      (name code : Text)
      → is_utf8 name ≡ true
      → code ≢ []
      → sys.b64url_decode code ≡ some name
      → xattr_name sys layout uuid is_dir (some code) ≡ some name
  unfolding xattr_name
  name_of_code name [] utf8 ne h = absurd (ne refl)
  name_of_code name (c ∷ cs) utf8 ne h = rw (h, utf8) refl

  -- The keys of attributes whose names the engine reads back are listed as those names, in order.
  pub xattr_names-xattr_key :
      (names : List Text)
      → All IsName names
      → xattr_names sys layout uuid is_dir (map (xattr_key sys layout uuid is_dir) names) ≡ names
  unfolding xattr_names xattr_key
  xattr_names-xattr_key [] h = refl
  xattr_names-xattr_key (name ∷ names) ((utf8, ne, back), h) =
      rw
        (
          strip_prefix-append (xattr_prefix layout uuid is_dir) (sys.b64url_encode name),
          name_of_code name (sys.b64url_encode name) utf8 ne back,
          xattr_names-xattr_key names h,
        )
        refl
