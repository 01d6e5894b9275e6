-- ===== src/Ondisk/Tests.antt =====
-- The name field at a short and at a long name.
use hyperdir.Base.{ℕ, ◌≡◌, refl, arith, true, false, [], codes, replicate, Text}
use hyperdir.Ondisk.{from, from_raw, has_nul, name_eq}
use hyperdir.Ondisk.Utf8.{is_utf8}
use hyperdir.Ondisk.Names.{name_eq-from_long, from_raw-from}

abbrev long : Text
long = replicate 300 97

long_plain : has_nul long ≡ false
unfolding has_nul
long_plain = refl

name_eq-from_long_example : name_eq {I = ℕ} (from 1 [] long) long ≡ false
name_eq-from_long_example = name_eq-from_long 1 [] long long_plain (omega arith)

ab_plain : has_nul (codes "ab") ≡ false
unfolding has_nul
ab_plain = refl

ab_utf8 : is_utf8 (codes "ab") ≡ true
unfolding is_utf8
ab_utf8 = refl

from_raw-from_example :
    from_raw {I = ℕ} (λ i. i) (from 1 [] (codes "ab"))
    ≡ record { inode = 1; uuid = []; name = codes "ab" }
from_raw-from_example =
    from_raw-from {I = ℕ} 1 [] (codes "ab") (λ i. i) ab_utf8 ab_plain (omega arith)
