-- ===== src/Layout/Tests.antt =====
-- The keys of a tree under a base.
use hyperdir.Base.{◌≡◌, refl, codes}
use hyperdir.Layout.{with_base, dir_key}

-- `base_is_normalized`: slashes at the end of a base are one slash.
base_is_normalized :
    (dir_key (with_base (codes "t")) (codes "u") ≡ codes "t/DIR/u")
    × (dir_key (with_base (codes "t//")) (codes "u") ≡ codes "t/DIR/u")
    × (dir_key (with_base (codes "/")) (codes "u") ≡ codes "DIR/u")
unfolding dir_key with_base
base_is_normalized = (refl, refl, refl)
