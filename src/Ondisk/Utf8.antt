-- ===== src/Ondisk/Utf8.antt =====
-- `str::from_utf8` of the standard library: the byte sequences that are well-formed UTF-8.
use hyperdir.Base.{
  ℕ, Bool, true, false, ◌&&◌, ◌||◌, ◌≡◌, refl, [], ◌∷◌, leb, ltb, ◌==◌, arith, Text,
}

between : ℕ → ℕ → ℕ → Bool
between lo hi b = leb lo b && leb b hi

-- A continuation byte.
cont : ℕ → Bool
unfolding between
cont = between 0x80 0xbf

-- The second byte of a sequence of three or four bytes.
second_of : ℕ → ℕ → Bool
unfolding between cont
second_of a b =
    ((a == 0xe0) && between 0xa0 0xbf b)
    || (between 0xe1 0xec a && cont b)
    || ((a == 0xed) && between 0x80 0x9f b)
    || (between 0xee 0xef a && cont b)

second_of_four : ℕ → ℕ → Bool
unfolding between cont
second_of_four a b =
    ((a == 0xf0) && between 0x90 0xbf b)
    || (between 0xf1 0xf3 a && cont b)
    || ((a == 0xf4) && between 0x80 0x8f b)

unfoldable pub is_utf8 : Text → Bool
unfolding second_of second_of_four
is_utf8 [] = true
is_utf8 (a ∷ []) = ltb a 0x80
is_utf8 (a ∷ b ∷ []) = (ltb a 0x80 && is_utf8 (b ∷ [])) || (between 0xc2 0xdf a && cont b)
is_utf8 (a ∷ b ∷ c ∷ []) =
    (ltb a 0x80 && is_utf8 (b ∷ c ∷ []))
    || (between 0xc2 0xdf a && cont b && is_utf8 (c ∷ []))
    || (second_of a b && cont c)
is_utf8 (a ∷ b ∷ c ∷ d ∷ bs) =
    (ltb a 0x80 && is_utf8 (b ∷ c ∷ d ∷ bs))
    || (between 0xc2 0xdf a && cont b && is_utf8 (c ∷ d ∷ bs))
    || (second_of a b && cont c && is_utf8 (d ∷ bs))
    || (second_of_four a b && cont c && cont d && is_utf8 bs)

-- No UTF-8 begins with 0xff.
pub is_utf8-first : (a : ℕ) (bs : Text) → is_utf8 (a ∷ bs) ≡ true → (a == 0xff) ≡ false
unfolding is_utf8
is_utf8-first a [] h = ground arith
is_utf8-first a (b ∷ []) h = ground arith
is_utf8-first a (b ∷ c ∷ []) h = ground arith
is_utf8-first a (b ∷ c ∷ d ∷ bs) h = ground arith

utf8_samples :
    (is_utf8 (0xe6 ∷ 0x96 ∷ 0x87 ∷ 0x61 ∷ []) ≡ true) × (is_utf8 (0xc0 ∷ 0x80 ∷ []) ≡ false)
unfolding is_utf8
utf8_samples = (refl, refl)
