-- ===== src/Layout/Keys.antt =====
-- The keys of a layout tell its directories and its files apart, under any base.
use hyperdir.Base.{ℕ, ◌≡◌, ◌≢◌, [], ◌∷◌, ◌++◌, Text, codes, arith}
use hyperdir.Layout.{HyperDirLayout, dir_key, file_key, dir_uri, file_uri}

pub append_cancel : (a b c : Text) → a ++ b ≡ a ++ c → b ≡ c
append_cancel [] b c h = h
append_cancel (x ∷ a) b c h = append_cancel a b c (∷-tail h)
  where
    ∷-tail : {s t : Text} → x ∷ s ≡ x ∷ t → s ≡ t
    ∷-tail e = cc

-- Two directories of one layout have the same prefix only if they have the same uuid; no directory
-- has the prefix of a file.
pub dir_key-separates :
    (layout : HyperDirLayout) (u v : Text)
    → ((dir_key layout u ≡ dir_key layout v) → u ≡ v) × (dir_key layout u ≢ file_key layout v)
unfolding dir_key file_key
dir_key-separates layout u v = (
  λ h. tail_eq (append_cancel layout.base (68 ∷ 73 ∷ 82 ∷ 47 ∷ u) (68 ∷ 73 ∷ 82 ∷ 47 ∷ v) h),
  λ h. head_ne (append_cancel layout.base (68 ∷ 73 ∷ 82 ∷ 47 ∷ u) (70 ∷ 73 ∷ 76 ∷ 69 ∷ 47 ∷ v) h),
)
  where
    tail_eq : (68 ∷ 73 ∷ 82 ∷ 47 ∷ u) ≡ (68 ∷ 73 ∷ 82 ∷ 47 ∷ v) → u ≡ v
    tail_eq e = cc

    heads : {x y : ℕ} {s t : Text} → x ∷ s ≡ y ∷ t → x ≡ y
    heads e = cc

    head_ne : (68 ∷ 73 ∷ 82 ∷ 47 ∷ u) ≢ (70 ∷ 73 ∷ 76 ∷ 69 ∷ 47 ∷ v)
    head_ne e = omega (arith, heads e)

module _ (layout : HyperDirLayout) (bucket u v : Text) where
  pub file_uri_injective : file_uri layout bucket u ≡ file_uri layout bucket v → u ≡ v
  unfolding file_uri file_key
  file_uri_injective h = tail_eq (
      append_cancel layout.base (70 ∷ 73 ∷ 76 ∷ 69 ∷ 47 ∷ u) (70 ∷ 73 ∷ 76 ∷ 69 ∷ 47 ∷ v)
        (append_cancel (codes "s3://" ++ bucket ++ codes "/") _ _ h))
    where
      tail_eq : (70 ∷ 73 ∷ 76 ∷ 69 ∷ 47 ∷ u) ≡ (70 ∷ 73 ∷ 76 ∷ 69 ∷ 47 ∷ v) → u ≡ v
      tail_eq e = cc

  pub dir_uri_injective : dir_uri layout bucket u ≡ dir_uri layout bucket v → u ≡ v
  unfolding dir_uri
  dir_uri_injective h =
      (dir_key-separates layout u v).0 (
        append_cancel (codes "s3://" ++ bucket ++ codes "/") (dir_key layout u) (dir_key layout v)
          h)

  pub dir_uri_ne : dir_uri layout bucket u ≢ file_uri layout bucket v
  unfolding dir_uri file_uri
  dir_uri_ne h = (dir_key-separates layout u v).1 (
      append_cancel (codes "s3://" ++ bucket ++ codes "/") (dir_key layout u) (file_key layout v) h)
