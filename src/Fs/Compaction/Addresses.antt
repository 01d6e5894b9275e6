-- ===== src/Fs/Compaction/Addresses.antt =====
-- The children's URIs that the compaction cuts out of its root path are those of the layout.
use hyperdir.Base.{
  ◌≡◌, ◌≢◌, refl, ap, Bool, true, false, none, some, [], ◌∷◌, ◌++◌, arith, All, if◌then◌else◌, Text,
  codes,
}
use hyperdir.Wire.{strip_prefix}
use hyperdir.Layout.{HyperDirLayout, dir_key, file_key, dir_uri, file_uri}
use hyperdir.Fs.Compaction.{found, before_match, before_last, or_empty, base_of, child_uri_of}

-- A text without a slash, as every uuid's.
abbrev pub HasNoSlash : Text → Type 0
HasNoSlash = All (λ c. c ≢ 47)

abbrev dir_slash : Text
dir_slash = codes "DIR/"

not_found_here : (s : Text) → HasNoSlash s → found (strip_prefix dir_slash s) ≡ false
unfolding strip_prefix
not_found_here [] h = refl
not_found_here (a ∷ []) h = ground arith
not_found_here (a ∷ b ∷ []) h = ground arith
not_found_here (a ∷ b ∷ c ∷ []) h = ground arith
not_found_here (a ∷ b ∷ c ∷ d ∷ s) (_, (_, (_, (ne, _)))) = ground (arith, ne)

before_last-none : (s : Text) → HasNoSlash s → before_last dir_slash s ≡ none
unfolding before_last
before_last-none [] h = refl
before_last-none (c ∷ s) (ne, h) = rw (before_last-none s h, not_found_here (c ∷ s) (ne, h)) refl

before_last_here : (u : Text) → HasNoSlash u → before_last dir_slash (dir_slash ++ u) ≡ some []
unfolding before_last strip_prefix
before_last_here u h = rw (before_last-none u h) refl

before_last-append :
    (base u : Text) → HasNoSlash u → before_last dir_slash (base ++ (dir_slash ++ u)) ≡ some base
unfolding before_last
before_last-append [] u h = before_last_here u h
before_last-append (c ∷ base) u h =
    ap (before_match c (found (strip_prefix dir_slash (c ∷ (base ++ (dir_slash ++ u))))))
      (before_last-append base u h)

-- In a directory whose uuid has no slash, the child's URI that `fs_compact` makes of the directory's
-- own key is the one that the layout gives the child, whatever the base is.
pub child_uri_of-dir_key :
    (layout : HyperDirLayout) (bucket parent uuid : Text) (is_dir : Bool)
    → HasNoSlash parent
    → child_uri_of bucket (dir_key layout parent) is_dir uuid
      ≡ (if is_dir then dir_uri layout bucket uuid else file_uri layout bucket uuid)
unfolding child_uri_of base_of dir_key file_key dir_uri file_uri
child_uri_of-dir_key layout bucket parent uuid true h =
    ap
      (λ b.
        codes "s3://" ++ bucket ++ codes "/" ++ (or_empty b ++ (codes "DIR" ++ codes "/" ++ uuid)))
      (before_last-append layout.base parent h)
child_uri_of-dir_key layout bucket parent uuid false h =
    ap
      (λ b.
        codes "s3://" ++ bucket ++ codes "/" ++ (or_empty b ++ (codes "FILE" ++ codes "/" ++ uuid)))
      (before_last-append layout.base parent h)
