-- ===== src/Staging/Listing.antt =====
-- The listing of scatter objects (`list_scatter_with_prefix` and its two callers in src/s3.rs), over
-- the pages of `list_objects_v2`: keys with their modification times, or a failed call. `none` is a
-- panic of `path_decode`.
pub mod Complete
use hyperdir.Base.{
  ℕ, Bool, true, false, ◌||◌, Option, none, some, List, [], ◌∷◌, ◌++◌, if◌then◌else◌, Text, codes,
  Result, ok, err,
}
use hyperdir.Scatter.{DirScatterInode}
use hyperdir.Staging.{scatter_inodes_path}
use hyperdir.Staging.Keys.{strip_suffix, then_some, path_decode}

abbrev pub is_some : {A : Type 0} → Option A → Bool
is_some none = false
is_some (some _) = true

-- `str::ends_with`, of a suffix that is not empty.
unfoldable pub ends_with : Text → Text → Bool
unfolding strip_suffix
ends_with suffix s = is_some (strip_suffix suffix s)

-- The extensions of scatter objects.
unfoldable pub is_scatter_key : Text → Bool
unfolding ends_with
is_scatter_key key = ends_with (codes ".inode") key || ends_with (codes ".tombstone") key

abbrev pub push : {A : Type 0} → Option A → Option (List A) → Option (List A)
push none rest = none
push (some a) none = none
push (some a) (some rest) = some (a ∷ rest)

module _ (decode : Text → Option Text) (parse_ulid : Text → Option ℕ)
    (parse_uuid : Text → Option Text) where
  unfoldable pub decode_objects : List (Text × ℕ) → Option (List DirScatterInode)
  unfolding is_scatter_key path_decode
  decode_objects [] = some []
  decode_objects ((key, last_modified) ∷ rest) =
      let others = decode_objects rest in
      if is_scatter_key key
      then push (path_decode decode parse_ulid parse_uuid key last_modified) others
      else others

  -- A page that failed is passed over.
  unfoldable pub decode_pages : List (Result (List (Text × ℕ))) → Option (List DirScatterInode)
  unfolding decode_objects
  decode_pages [] = some []
  decode_pages (err _ ∷ pages) = decode_pages pages
  decode_pages (ok objects ∷ pages) =
      then_some (decode_objects objects)
        λ here. then_some (decode_pages pages) λ rest. some (here ++ rest)

  module _ {W : Type 0} (list_objects : W → Text → List (Result (List (Text × ℕ)))) where
    unfoldable pub list_scatter_with_prefix : W → Text → Option (Result (List DirScatterInode))
    unfolding decode_pages
    list_scatter_with_prefix w prefix =
        then_some (decode_pages (list_objects w prefix)) λ scatters. some (ok scatters)

    unfoldable pub list_scatter_inodes : Text → W → Option (Result (List DirScatterInode))
    unfolding list_scatter_with_prefix scatter_inodes_path
    list_scatter_inodes root_path w = list_scatter_with_prefix w (scatter_inodes_path root_path)

    unfoldable pub list_scatter_inodes_for_name :
        (Text → Text) → Text → W → Text → Option (Result (List DirScatterInode))
    unfolding list_scatter_with_prefix scatter_inodes_path
    list_scatter_inodes_for_name encode_filename root_path w filename =
        list_scatter_with_prefix w
          (scatter_inodes_path root_path ++ (encode_filename filename ++ codes "/"))
