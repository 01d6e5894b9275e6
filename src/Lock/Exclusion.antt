-- ===== src/Lock/Exclusion.antt =====
-- Mutual exclusion: no two owners of a table ever clash at a byte, whatever calls built it.
use hyperdir.Base.{
  ℕ, Bool, true, false, not, ◌&&◌, ◌⊎◌, Option, none, ◌≡◌, refl, sym, ◌∙◌, arith, leb, Text,
  text_eq, text_eq_iff, text_eq_symm, if◌then◌else◌, Option-cases, inl, inr, any,
}
use mathlib.Core.Path.{subst}
use hyperdir.Base.Int.{ℤ}
use hyperdir.Lock.{
  LockKind, unlock, kind_eq, Conflict, LockTable, default, purge_expired, test, set, release_owner,
  renew, locks, listed,
}
use hyperdir.Lock.Conflicts.{clash, test_clear, kind_eq_sound}
use hyperdir.Lock.Expiry.{purge_expired-le, locks-release_owner, locks-renew, listed-purge_expired}
use hyperdir.Lock.Grant.{concerns, locks-set, set_refuse, set_refused-inv}

-- No byte is listed for one owner in write mode and for another owner in any mode.
pub record IsExclusive (t : LockTable) : Type 0 where
  pub apart :
      (a b : Text) (k l : LockKind) (p : ℕ)
      → text_eq a b ≡ false
      → locks listed t a k p ≡ true
      → locks listed t b l p ≡ true
      → clash k l ≡ false

pub IsExclusive-default : IsExclusive default
unfolding locks any
IsExclusive-default = record { apart = λ a b k l p d x y. cc }

pub purge_expired-IsExclusive :
    (t : LockTable) (now : ℤ) → IsExclusive t → IsExclusive (purge_expired t now)
purge_expired-IsExclusive t now h = record {
  apart = λ a b k l p d x y.
      h.apart a b k l p d (purge_expired-le listed a k p t now x)
        (purge_expired-le listed b l p t now y);
}

pub release_owner-IsExclusive :
    (t : LockTable) (owner : Text) → IsExclusive t → IsExclusive (release_owner t owner).0
release_owner-IsExclusive t owner h = record {
  apart = λ a b k l p d x y.
      h.apart a b k l p d (ground (arith, locks-release_owner listed a k p t owner))
        (ground (arith, locks-release_owner listed b l p t owner));
}

pub renew-IsExclusive :
    (t : LockTable) (owner : Text) (expire : ℤ)
    → IsExclusive t
    → IsExclusive (renew t owner expire).0
renew-IsExclusive t owner expire h = record {
  apart = λ a b k l p d x y.
      h.apart a b k l p d (ground (arith, locks-renew listed a k p t owner expire))
        (ground (arith, locks-renew listed b l p t owner expire));
}

module _ (t : LockTable) (owner : Text) (kind : LockKind) (start end pid : ℕ) (expire now : ℤ) where
  abbrev result : LockTable × Option Conflict
  result = set t owner kind start end pid expire now

  abbrev purged : LockTable
  purged = purge_expired t now

  -- A grant means that no other owner clashes in the range.
  set-clear :
      result.1 ≡ none
      → kind_eq kind unlock ≡ false
      → (o : Text) (k : LockKind) (p : ℕ) → text_eq o owner ≡ false
      → (leb start p && leb p end) ≡ true
      → locks listed purged o k p ≡ true
      → clash kind k ≡ false
  set-clear granted locking o k p other inside locked =
      test_clear owner kind start end now purged.entries (unfold test in clear) o k p other
        (ground arith) (ground arith)
        (unfold locks in sym (listed-purge_expired now o k p t) ∙ locked)
    where
      clear : test purged owner kind start end now ≡ none
      clear = elim (Option-cases (test purged owner kind start end now)) [
        | inl none_found ↦ none_found
        | inr (c, found) ↦
            cc (granted, set_refuse t owner start end pid expire now kind locking c found)
      ]

  -- After a grant a lock is the new one or an old one.
  abbrev NewOrOld : Text → LockKind → ℕ → Type 0
  NewOrOld o k p =
      (concerns owner start end o p ≡ true) × (kind ≡ k) × (kind_eq kind unlock ≡ false)
      ⊎ (locks listed purged o k p ≡ true)

  new_or_old :
      result.1 ≡ none
      → (o : Text) (k : LockKind) (p : ℕ) → locks listed result.0 o k p ≡ true
      → NewOrOld o k p
  new_or_old granted o k p x =
      split (concerns owner start end o p) (kind_eq kind unlock) (kind_eq kind k)
        (locks listed purged o k p) refl refl refl refl
        (sym (locks-set t owner kind start end pid expire now listed o k p granted) ∙ x)
    where
      split :
          (c u e l : Bool)
          → concerns owner start end o p ≡ c
          → kind_eq kind unlock ≡ u
          → kind_eq kind k ≡ e
          → locks listed purged o k p ≡ l
          → (if c then not u && e && true else l) ≡ true
          → NewOrOld o k p
      split true false true l hc hu he hl h = inl (hc, kind_eq_sound kind k he, hu)
      split false u e true hc hu he hl h = inr hl
      split _ _ _ _ hc hu he hl h = cc

  clash_symm : (k l : LockKind) → clash k l ≡ clash l k
  clash_symm k l = ground arith

  not_owner :
      (a b : Text) (p : ℕ)
      → text_eq a b ≡ false
      → concerns owner start end a p ≡ true
      → (text_eq b owner ≡ false) × ((leb start p && leb p end) ≡ true)
  not_owner a b p d h =
      (ground (arith, text_eq_iff a owner, text_eq_iff b owner, text_eq_iff a b), ground arith)

  set_granted-apart :
      IsExclusive t
      → result.1 ≡ none
      → (a b : Text) (k l : LockKind) (p : ℕ) → text_eq a b ≡ false
      → locks listed result.0 a k p ≡ true
      → locks listed result.0 b l p ≡ true
      → clash k l ≡ false
  set_granted-apart h granted a b k l p d x y = elim (new_or_old granted a k p x) [
    | inl (ca, ka, locking) ↦
        let (other, inside) = not_owner a b p d ca in
        elim (new_or_old granted b l p y) [
          | inl (cb, kb, _) ↦ ground arith
          | inr old ↦ rw (← ka) (set-clear granted locking b l p other inside old)
        ]
    | inr old_a ↦ elim (new_or_old granted b l p y) [
      | inl (cb, kb, locking) ↦
          let (other, inside) = not_owner b a p (text_eq_symm b a ∙ d) cb in
          rw (clash_symm k l, ← kb) (set-clear granted locking a k p other inside old_a)
      | inr old_b ↦ (purge_expired-IsExclusive t now h).apart a b k l p d old_a old_b
    ]
  ]

  -- `set` keeps the table exclusive, whether it grants, unlocks or refuses.
  pub set-IsExclusive : IsExclusive t → IsExclusive result.0
  set-IsExclusive h = elim (Option-cases result.1) [
    | inl granted ↦ record { apart = set_granted-apart h granted }
    | inr (c, refused) ↦
        subst IsExclusive (sym (set_refused-inv t owner kind start end pid expire now c refused).0)
          (purge_expired-IsExclusive t now h)
  ]
