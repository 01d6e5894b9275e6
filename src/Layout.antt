-- ===== src/Layout.antt =====
-- The S3 keys of a tree (src/layout.rs). A uuid stands as its text.
pub mod Keys
mod Tests
use hyperdir.Base.{ℕ, Bool, true, false, ◌&&◌, [], ◌∷◌, ◌++◌, ◌==◌, if◌then◌else◌, Text, codes}

abbrev pub root_dir_uuid : Text
root_dir_uuid = codes "00000000-0000-0000-0000-000000000000"

abbrev pub dir_namespace : Text
dir_namespace = codes "DIR"

abbrev pub file_namespace : Text
file_namespace = codes "FILE"

abbrev pub txn_namespace : Text
txn_namespace = codes "_TXN"

pub record HyperDirLayout : Type 0 where
  pub base : Text

abbrev pub is_empty : Text → Bool
is_empty [] = true
is_empty (_ ∷ _) = false

-- `str::trim_end_matches` of one byte.
unfoldable pub trim_end_matches : ℕ → Text → Text
trim_end_matches c [] = []
trim_end_matches c (b ∷ bs) =
    let rest = trim_end_matches c bs in if (b == c) && is_empty rest then [] else b ∷ rest

abbrev pub new : HyperDirLayout
new = record { base = [] }

unfoldable pub with_base : Text → HyperDirLayout
unfolding trim_end_matches
with_base base =
    let trimmed = trim_end_matches 47 base in
    record { base = if is_empty trimmed then [] else trimmed ++ codes "/" }

unfoldable pub dir_key : HyperDirLayout → Text → Text
dir_key layout uuid = layout.base ++ (dir_namespace ++ codes "/" ++ uuid)

unfoldable pub file_key : HyperDirLayout → Text → Text
file_key layout uuid = layout.base ++ (file_namespace ++ codes "/" ++ uuid)

unfoldable pub dir_uri : HyperDirLayout → Text → Text → Text
unfolding dir_key
dir_uri layout bucket uuid = codes "s3://" ++ bucket ++ codes "/" ++ dir_key layout uuid

unfoldable pub file_uri : HyperDirLayout → Text → Text → Text
unfolding file_key
file_uri layout bucket uuid = codes "s3://" ++ bucket ++ codes "/" ++ file_key layout uuid

unfoldable pub root_dir_uri : HyperDirLayout → Text → Text
unfolding dir_uri
root_dir_uri layout bucket = dir_uri layout bucket root_dir_uuid

unfoldable pub txn_key : HyperDirLayout → Text → Text
txn_key layout txn_id = layout.base ++ txn_namespace ++ codes "/" ++ txn_id ++ codes ".intent"

unfoldable pub reclaim_key : HyperDirLayout → Text → Text
reclaim_key layout txn_id = layout.base ++ txn_namespace ++ codes "/" ++ txn_id ++ codes ".reclaim"

unfoldable pub txn_prefix : HyperDirLayout → Text
txn_prefix layout = layout.base ++ txn_namespace ++ codes "/"

unfoldable pub dir_prefix : HyperDirLayout → Text
dir_prefix layout = layout.base ++ dir_namespace ++ codes "/"

unfoldable pub file_prefix : HyperDirLayout → Text
file_prefix layout = layout.base ++ file_namespace ++ codes "/"
