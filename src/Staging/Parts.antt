-- ===== src/Staging/Parts.antt =====
-- The text functions of `path_decode` at the separators of a key.
use hyperdir.Base.{
  ℕ, ◌≤◌, ◌≡◌, ◌≢◌, refl, ap, none, some, List, [], ◌∷◌, ◌++◌, ◌==◌, if◌then◌else◌, arith, All,
  Text, codes, text_eq,
}
use hyperdir.Wire.{onto_first, split, decimal}
use hyperdir.Scatter.{
  DirScatterInodeOp, create, update, pre_delete, delete, unknown, as_u8, from_u8,
}
use hyperdir.Staging.Keys.{trim_start_matches, strip_suffix, or_else, split_once}

-- A text without a byte.
abbrev pub Lacks : ℕ → Text → Type 0
Lacks c = All (λ b. b ≢ c)

pub split_here :
    (c b : ℕ) (s f : Text) (rest : List Text)
    → b ≢ c
    → split c s ≡ f ∷ rest
    → split c (b ∷ s) ≡ (b ∷ f) ∷ rest
unfolding split onto_first
split_here c b s f rest ne h = ground arith

pub split_at : (c : ℕ) (f s : Text) → Lacks c f → split c (f ++ (c ∷ s)) ≡ f ∷ split c s
unfolding split
split_at c [] s h = ground arith
split_at c (b ∷ f) s (ne, h) = split_here c b (f ++ (c ∷ s)) f (split c s) ne (split_at c f s h)

pub split_whole : (c : ℕ) (f : Text) → Lacks c f → split c f ≡ f ∷ []
unfolding split
split_whole c [] h = refl
split_whole c (b ∷ f) (ne, h) = split_here c b f f [] ne (split_whole c f h)

pub split_once_at : (c : ℕ) (f s : Text) → Lacks c f → split_once c (f ++ (c ∷ s)) ≡ some (f, s)
unfolding split_once
split_once_at c [] s h = ground arith
split_once_at c (b ∷ f) s (ne, h) = ground (arith, ne, split_once_at c f s h)

-- A byte that separates nothing in a key: the bytes of a base64 name in the alphabet of the source,
-- of a ULID, of a uuid and of a decimal number.
abbrev pub IsPlain : ℕ → Type 0
IsPlain c = (c ≢ 33) × (c ≢ 46) × (c ≢ 47) × (c ≢ 95)

pub Lacks-append : (c : ℕ) (s t : Text) → Lacks c s → Lacks c t → Lacks c (s ++ t)
Lacks-append c [] t h g = g
Lacks-append c (b ∷ s) t (x, h) g = (x, Lacks-append c s t h g)

pub plain-Lacks : (s : Text) → All IsPlain s → Lacks 33 s × Lacks 46 s × Lacks 47 s × Lacks 95 s
plain-Lacks [] h = (tt, tt, tt, tt)
plain-Lacks (b ∷ s) ((bang, dot, slash, under), h) =
    let (x, y, z, w) = plain-Lacks s h in ((bang, x), (dot, y), (slash, z), (under, w))

pub strip_suffix-inode :
    (s : Text) → Lacks 46 s → strip_suffix (codes ".inode") (s ++ codes ".inode") ≡ some s
unfolding strip_suffix text_eq
strip_suffix-inode [] h = refl
strip_suffix-inode (c ∷ s) (ne, h) = ground (arith, ne, strip_suffix-inode s h)

pub strip_suffix-tombstone :
    (s : Text) → Lacks 46 s → strip_suffix (codes ".tombstone") (s ++ codes ".tombstone") ≡ some s
unfolding strip_suffix text_eq
strip_suffix-tombstone [] h = refl
strip_suffix-tombstone (c ∷ s) (ne, h) = ground (arith, ne, strip_suffix-tombstone s h)

pub strip_suffix-other :
    (s : Text) → Lacks 46 s → strip_suffix (codes ".inode") (s ++ codes ".tombstone") ≡ none
unfolding strip_suffix text_eq
strip_suffix-other [] h = refl
strip_suffix-other (c ∷ s) (ne, h) = ground (arith, ne, strip_suffix-other s h)

abbrev pub suffix_of : DirScatterInodeOp → Text
suffix_of op = if as_u8 op == as_u8 delete then codes ".tombstone" else codes ".inode"

pub either_suffix :
    (op : DirScatterInodeOp) (s : Text)
    → Lacks 46 s
    → or_else
        (strip_suffix (codes ".inode") (s ++ suffix_of op))
        (strip_suffix (codes ".tombstone") (s ++ suffix_of op))
      ≡ some s
unfolding as_u8
either_suffix create s h = rw (strip_suffix-inode s h) refl
either_suffix update s h = rw (strip_suffix-inode s h) refl
either_suffix pre_delete s h = rw (strip_suffix-inode s h) refl
either_suffix delete s h = rw (strip_suffix-other s h, strip_suffix-tombstone s h) refl
either_suffix unknown s h = rw (strip_suffix-inode s h) refl

pub op_back : (op : DirScatterInodeOp) → from_u8 (as_u8 op) ≡ op
unfolding from_u8 as_u8
op_back create = refl
op_back update = refl
op_back pre_delete = refl
op_back delete = refl
op_back unknown = refl

pub as_u8_small : (op : DirScatterInodeOp) → as_u8 op ≤ 255
unfolding as_u8
as_u8_small create = omega arith
as_u8_small update = omega arith
as_u8_small pre_delete = omega arith
as_u8_small delete = omega arith
as_u8_small unknown = omega arith

pub op-IsPlain : (op : DirScatterInodeOp) → All IsPlain (decimal (as_u8 op))
unfolding as_u8 decimal
op-IsPlain create = omega arith
op-IsPlain update = omega arith
op-IsPlain pre_delete = omega arith
op-IsPlain delete = omega arith
op-IsPlain unknown = omega arith

pub suffix-Lacks : (op : DirScatterInodeOp) → Lacks 33 (suffix_of op)
unfolding as_u8
suffix-Lacks create = omega arith
suffix-Lacks update = omega arith
suffix-Lacks pre_delete = omega arith
suffix-Lacks delete = omega arith
suffix-Lacks unknown = omega arith

pub trim_first :
    (s t u : Text)
    → s ≢ []
    → Lacks 47 s
    → trim_start_matches 47 (47 ∷ ((s ++ t) ++ u)) ≡ (s ++ t) ++ u
unfolding trim_start_matches
trim_first [] t u ne h = absurd (ne refl)
trim_first (c ∷ s) t u ne (x, h) = ground (arith, x)

pub one_later : (s t : Text) (c : ℕ) → s ++ (c ∷ t) ≡ (s ++ (c ∷ [])) ++ t
one_later [] t c = refl
one_later (b ∷ s) t c = ap (λ r. b ∷ r) (one_later s t c)
