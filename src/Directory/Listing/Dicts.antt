-- ===== src/Directory/Listing/Dicts.antt =====
-- Dictionaries: insertion, removal, and their loops.
use hyperdir.Base.{
  ◌≡◌, refl, sym, ap, ◌∙◌, Bool, true, false, Option, none, some, [], ◌∷◌, if◌then◌else◌, arith,
  Text, text_eq, text_eq_iff, text_eq_symm, Bool-cases, inl, inr,
}
use hyperdir.Directory.{Dict, insert, remove, get}
use hyperdir.Directory.Listing.{overlay, remove_all}

-- A dictionary binds each key once.
abbrev pub IsDict : {V : Type 0} → Dict V → Type 0
IsDict [] = Unit
IsDict ((k, v) ∷ d) = (get k d ≡ none) × IsDict d

-- The first binding, or else the second.
abbrev pub over : {V : Type 0} → Option V → Option V → Option V
over none o = o
over (some v) o = some v

-- Nothing for a key that is bound.
abbrev pub hidden : {U V : Type 0} → Option U → Option V → Option V
hidden none o = o
hidden (some u) o = none

pub get-insert :
    {V : Type 0} (k n : Text) (v : V) (d : Dict V)
    → get k (insert n v d) ≡ (if text_eq n k then some v else get k d)
unfolding get insert
get-insert k n v [] = refl
get-insert k n v ((m, u) ∷ d) =
    ground (arith, text_eq_iff m n, text_eq_iff m k, text_eq_iff n k, get-insert k n v d)

pub insert-IsDict : {V : Type 0} (n : Text) (v : V) (d : Dict V) → IsDict d → IsDict (insert n v d)
unfolding insert
insert-IsDict n v [] h = (unfold get in refl, tt)
insert-IsDict n v ((m, u) ∷ d) (free, h) = elim (Bool-cases (text_eq m n)) [
  | inl same ↦ rw same (ap (λ k. get k d) (sym ((text_eq_iff m n).0 same)) ∙ free, h)
  | inr differ ↦
      rw differ (get-insert m n v d ∙ rw (text_eq_symm n m, differ) free, insert-IsDict n v d h)
]

get-remove :
    {V : Type 0} (k n : Text) (d : Dict V)
    → IsDict d
    → get k (remove n d) ≡ (if text_eq n k then none else get k d)
unfolding get remove
get-remove k n [] h = ground arith
get-remove k n ((m, u) ∷ d) (free, h) = elim (Bool-cases (text_eq m n)) [
  | inl same ↦ elim (Bool-cases (text_eq n k)) [
    | inl here ↦
        rw (same, here)
          (ap (λ x. get x d) (sym ((text_eq_iff n k).0 here) ∙ sym ((text_eq_iff m n).0 same))
            ∙ free)
    | inr there ↦ rw (same, there, (text_eq_iff m n).0 same, there) refl
  ]
  | inr differ ↦
      ground (arith, text_eq_iff m n, text_eq_iff m k, text_eq_iff n k, get-remove k n d h)
]

remove-IsDict : {V : Type 0} (n : Text) (d : Dict V) → IsDict d → IsDict (remove n d)
unfolding remove
remove-IsDict n [] h = tt
remove-IsDict n ((m, u) ∷ d) (free, h) = elim (Bool-cases (text_eq m n)) [
  | inl same ↦ rw same h
  | inr differ ↦
      rw differ (get-remove m n d h ∙ rw (text_eq_symm n m, differ) free, remove-IsDict n d h)
]

pub overlay-IsDict : {V : Type 0} (view d : Dict V) → IsDict view → IsDict (overlay view d)
unfolding overlay
overlay-IsDict view [] h = h
overlay-IsDict view ((n, v) ∷ d) h = overlay-IsDict (insert n v view) d (insert-IsDict n v view h)

pub get-overlay :
    {V : Type 0} (k : Text) (d view : Dict V)
    → IsDict d
    → get k (overlay view d) ≡ over (get k d) (get k view)
unfolding overlay get
get-overlay k [] view h = refl
get-overlay k ((n, v) ∷ d) view (free, h) =
    get-overlay k d (insert n v view) h
    ∙ ap (over (get k d)) (get-insert k n v view)
    ∙ first (text_eq n k) refl
  where
    first :
        (b : Bool)
        → text_eq n k ≡ b
        → over (get k d) (if text_eq n k then some v else get k view)
          ≡ over (if text_eq n k then some v else get k d) (get k view)
    first true here = rw (here, ap (λ x. get x d) (sym ((text_eq_iff n k).0 here)) ∙ free) refl
    first false there = rw there refl

pub remove_all-IsDict :
    {V U : Type 0} (view : Dict V) (d : Dict U) → IsDict view → IsDict (remove_all view d)
unfolding remove_all
remove_all-IsDict view [] h = h
remove_all-IsDict view ((n, u) ∷ d) h = remove_all-IsDict (remove n view) d (remove-IsDict n view h)

pub get-remove_all :
    {V U : Type 0} (k : Text) (d : Dict U) (view : Dict V)
    → IsDict view
    → get k (remove_all view d) ≡ hidden (get k d) (get k view)
unfolding remove_all get
get-remove_all k [] view h = refl
get-remove_all {U = U} k ((n, u) ∷ d) view h =
    get-remove_all k d (remove n view) (remove-IsDict n view h)
    ∙ ap (hidden (get k d)) (get-remove k n view h)
    ∙ first (text_eq n k) refl (get k d)
  where
    first :
        (b : Bool)
        → text_eq n k ≡ b
        → (o : Option U)
        → hidden o (if text_eq n k then none else get k view)
          ≡ hidden (if text_eq n k then some u else o) (get k view)
    first true here none = rw here refl
    first true here (some x) = rw here refl
    first false there o = rw there refl
