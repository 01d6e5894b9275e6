-- ===== src/Wire/Lines.antt =====
-- Lines and fields are read back where nothing in them ends one.
use hyperdir.Base.{ℕ, ◌≤◌, ◌<◌, ◌≡◌, ◌≢◌, refl, true, List, [], ◌∷◌, ◌++◌, arith, Text, All}
use hyperdir.Ondisk.Utf8.{is_utf8}
use hyperdir.Wire.{newline, tab, onto_first, lines, split}

-- A byte of an ASCII line.
abbrev pub IsLineByte : ℕ → Type 0
IsLineByte c = (c < 128) × (c ≢ 10) × (c ≢ 13)

-- A byte of a field of such a line.
abbrev pub IsFieldByte : ℕ → Type 0
IsFieldByte c = (32 ≤ c) × (c < 128)

lines_step :
    (c : ℕ) (s l : Text) (rest : List Text)
    → IsLineByte c
    → lines s ≡ l ∷ rest
    → lines (c ∷ s) ≡ (c ∷ l) ∷ rest
unfolding lines onto_first
lines_step c s l rest h e = ground arith

pub lines-append : (l s : Text) → All IsLineByte l → lines (l ++ (newline ∷ s)) ≡ l ∷ lines s
unfolding lines
lines-append [] s h = refl
lines-append (c ∷ l) s (here, rest) =
    lines_step c (l ++ (newline ∷ s)) l (lines s) here (lines-append l s rest)

split_step :
    (c : ℕ) (s f : Text) (rest : List Text)
    → IsFieldByte c
    → split tab s ≡ f ∷ rest
    → split tab (c ∷ s) ≡ (c ∷ f) ∷ rest
unfolding split onto_first
split_step c s f rest h e = ground arith

pub split-append : (f s : Text) → All IsFieldByte f → split tab (f ++ (tab ∷ s)) ≡ f ∷ split tab s
unfolding split
split-append [] s h = refl
split-append (c ∷ f) s (here, rest) =
    split_step c (f ++ (tab ∷ s)) f (split tab s) here (split-append f s rest)

pub split_last : (f : Text) → All IsFieldByte f → split tab f ≡ f ∷ []
unfolding split
split_last [] h = refl
split_last (c ∷ f) (here, rest) = split_step c f f [] here (split_last f rest)

-- ASCII is UTF-8.
pub is_utf8_ascii : (s : Text) → All (λ c. c < 128) s → is_utf8 s ≡ true
unfolding is_utf8
is_utf8_ascii [] h = refl
is_utf8_ascii (a ∷ []) (x, _) = ground arith
is_utf8_ascii (a ∷ b ∷ []) (x, h) = ground (arith, is_utf8_ascii (b ∷ []) h)
is_utf8_ascii (a ∷ b ∷ c ∷ []) (x, h) = ground (arith, is_utf8_ascii (b ∷ c ∷ []) h)
is_utf8_ascii (a ∷ b ∷ c ∷ d ∷ bs) (x, h) = ground (arith, is_utf8_ascii (b ∷ c ∷ d ∷ bs) h)

pub field_line : (c : ℕ) → IsFieldByte c → IsLineByte c
field_line c h = omega (arith, h)

pub IsFieldByte-line : (s t : Text) → All IsFieldByte s → All IsLineByte t → All IsLineByte (s ++ t)
IsFieldByte-line [] t h g = g
IsFieldByte-line (c ∷ s) t (x, h) g = (field_line c x, IsFieldByte-line s t h g)

pub All-line : (s : Text) → All IsFieldByte s → All IsLineByte s
All-line [] h = tt
All-line (c ∷ s) (x, h) = (field_line c x, All-line s h)

pub ascii_append :
    (s t : Text) → All IsLineByte s → All (λ c. c < 128) t → All (λ c. c < 128) (s ++ t)
ascii_append [] t h g = g
ascii_append (c ∷ s) t (x, h) g = (x.0, ascii_append s t h g)

pub field_append : (s t : Text) → All IsFieldByte s → All IsFieldByte t → All IsFieldByte (s ++ t)
field_append [] t h g = g
field_append (c ∷ s) t (x, h) g = (x, field_append s t h g)
