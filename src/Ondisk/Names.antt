-- ===== src/Ondisk/Names.antt =====
-- The name that an entry gives back: what survives the 256-byte field and its NUL.
use hyperdir.Base.{
  ℕ, zero, suc, ◌-◌, ◌≤◌, ◌<◌, true, false, ◌&&◌, ◌≡◌, refl, ap, sym, ◌∙◌, List, [], ◌∷◌, ◌++◌, ltb,
  if◌then◌else◌, length, take, replicate, arith, Text, text_eq, text_eq_iff, length-append,
  eq-false_of_ne, Bool-cases, inl, inr,
}
use hyperdir.Ondisk.{
  default_name_len, dummy_filename, from, before_nul, has_nul, is_dummy, name_bytes, name_eq,
  DirFileEntry, from_raw,
}
use hyperdir.Ondisk.Utf8.{is_utf8, is_utf8-first}

before_nul-stop : (s t : Text) → has_nul s ≡ false → before_nul (s ++ 0 ∷ t) ≡ s
unfolding before_nul has_nul
before_nul-stop [] t h = refl
before_nul-stop (b ∷ s) t h = ground (arith, before_nul-stop s t)

has_nul-stop : (s t : Text) → has_nul (s ++ 0 ∷ t) ≡ true
unfolding has_nul
has_nul-stop [] t = refl
has_nul-stop (b ∷ s) t = ground (arith, has_nul-stop s t)

has_nul-take : (n : ℕ) (s : Text) → has_nul s ≡ false → has_nul (take n s) ≡ false
unfolding has_nul
has_nul-take zero s h = refl
has_nul-take (suc n) [] h = refl
has_nul-take (suc n) (b ∷ s) h = ground (arith, has_nul-take n s)

take_all {ℓ} : {A : Type ℓ} (n : ℕ) (s : List A) → length s ≤ n → take n s ≡ s
take_all zero [] h = refl
take_all zero (b ∷ s) h = absurd (omega arith)
take_all (suc n) [] h = refl
take_all (suc n) (b ∷ s) h = ap (◌∷◌ b) (take_all n s (omega arith))

length-take {ℓ} : {A : Type ℓ} (n : ℕ) (s : List A) → n ≤ length s → length (take n s) ≡ n
length-take zero s h = refl
length-take (suc n) [] h = absurd (omega arith)
length-take (suc n) (b ∷ s) h = ap suc (length-take n s (omega arith))

length-replicate {ℓ} : {A : Type ℓ} (n : ℕ) (a : A) → length (replicate n a) ≡ n
length-replicate zero a = refl
length-replicate (suc n) a = ap suc (length-replicate n a)

abbrev zeros : ℕ → Text
zeros n = replicate n 0

replicate_some : (n : ℕ) → 0 < n → zeros n ≡ 0 ∷ zeros (n - 1)
replicate_some zero h = absurd (omega arith)
replicate_some (suc n) h = ap (λ k. 0 ∷ zeros k) (omega arith)

-- The stored field: what is kept of the name, a NUL, and more NULs.
abbrev kept : Text → Text
kept f = take default_name_len f

module _ {I : Type 0} (i : I) (u f : Text) where
  name-from : (t : Text) × ((from i u f).name ≡ kept f ++ 0 ∷ t)
  unfolding from
  name-from = elim (Bool-cases (ltb 255 (length f))) [
    | inl long ↦ ([], rw long)
    | inr short ↦ (
      replicate (256 - length f - 1) 0,
      rw (short, take_all 255 f (ground arith), replicate_some (256 - length f) (ground arith)),
    )
  ]

  -- The name field is always 256 bytes long.
  pub length-from : length (from i u f).name ≡ 256
  unfolding from
  length-from = elim (Bool-cases (ltb 255 (length f))) [
    | inl long ↦
        rw (long, length-append (take 255 f) (0 ∷ []), length-take 255 f (ground arith)) refl
    | inr short ↦
        rw (short, length-append f (replicate (256 - length f) 0), length-replicate) (ground arith)
  ]

  -- An entry gives back the first 255 bytes of the name that it was made from.
  pub name_bytes-from : has_nul f ≡ false → name_bytes (from i u f) ≡ kept f
  unfolding name_bytes
  name_bytes-from h =
      let (t, e) = name-from in rw e (before_nul-stop (kept f) t (has_nul-take 255 f h))

  pub name_eq-from : has_nul f ≡ false → length f ≤ 255 → name_eq (from i u f) f ≡ true
  unfolding name_eq
  name_eq-from h short =
      (text_eq_iff _ f).1 ((unfold name_bytes in name_bytes-from h) ∙ take_all 255 f short)

  -- An entry made from a name of more than 255 bytes, with no NUL, does not compare equal to that
  -- name.
  pub name_eq-from_long : has_nul f ≡ false → 255 < length f → name_eq (from i u f) f ≡ false
  unfolding name_eq
  name_eq-from_long h long = eq-false_of_ne (text_eq (name_bytes (from i u f)) f) λ e.
      let same : kept f ≡ f = sym (name_bytes-from h) ∙ (text_eq_iff _ f).0 e in
      absurd (omega (arith, ap (length {0}) same, length-take 255 f (omega arith)))

  -- The placeholder of hyperfile is no entry with a UTF-8 name.
  pub is_dummy-from : is_utf8 f ≡ true → is_dummy (from i u f) ≡ false
  unfolding is_dummy
  is_dummy-from h = let (t, e) = name-from in rw e (differ f t h)
    where
      differ :
          (s t : Text) → is_utf8 s ≡ true → text_eq (take 255 s ++ 0 ∷ t) dummy_filename ≡ false
      differ [] t h = unfold text_eq in refl
      differ (b ∷ s) t h = unfold text_eq in rw (is_utf8-first b s h)

  abbrev parsed : Text → Text
  parsed n = if has_nul n && is_utf8 (before_nul n) then before_nul n else []

  parsed-from : is_utf8 f ≡ true → has_nul f ≡ false → length f ≤ 255 → parsed (from i u f).name ≡ f
  parsed-from utf8 h short =
      let (t, e) = name-from in
      rw (e, take_all 255 f short, has_nul-stop f t, before_nul-stop f t h, utf8)

  -- When the name is UTF-8, has no NUL and at most 255 bytes, readers get back the inode, the uuid
  -- and the name that the entry was made from.
  pub from_raw-from :
      {J : Type 0} (inode_of : I → J)
      → is_utf8 f ≡ true
      → has_nul f ≡ false
      → length f ≤ 255
      → from_raw inode_of (from i u f) ≡ record { inode = inode_of i; uuid = u; name = f }
  unfolding from_raw from
  from_raw-from {J} inode_of utf8 h short =
      ap {B = DirFileEntry J} (λ n. record { inode = inode_of i; uuid = u; name = n })
        (parsed-from utf8 h short)
