-- ===== src/Staging/Tests.antt =====
-- Removal on a store that is a list of keys.
use hyperdir.Base.{
  ◌≡◌, refl, Bool, true, false, not, ◌&&◌, ◌||◌, List, [], ◌∷◌, Text, codes, text_eq, text_eq_refl,
  arith, ok, All,
}
use mathlib.Core.Path.{subst}
use hyperdir.Staging.{DeleteObjectsAnswer, BulkDelete, reported, remove_scatter_inodes}
use hyperdir.Staging.Removal.{IsBulkDelete, remove_scatter_inodes-Gone}
use hyperdir.Base.{some, ◌≢◌}
use hyperdir.Ondisk.Utf8.{is_utf8}
use hyperdir.Scatter.{delete}
use hyperdir.Staging.Listing.{list_scatter_with_prefix}
use hyperdir.Staging.Listing.Complete.{
  Emission, object_of, all_events, list_scatter_with_prefix-Complete,
}
use hyperdir.Staging.Emitted.{IsKey}

-- A store in which a key is present or not.
abbrev Keys : Type 0
Keys = Text → Bool

abbrev listed_in : List Text → Text → Bool
listed_in [] k = false
listed_in (j ∷ js) k = text_eq j k || listed_in js k

abbrev delete_keys : BulkDelete Keys
delete_keys w keys = ((λ k. not (listed_in keys k) && w k), reported [])

listed_here :
    (w : Keys) (all ks : List Text)
    → ((k : Text) → listed_in ks k ≡ true → listed_in all k ≡ true)
    → All (λ k. (not (listed_in all k) && w k) ≡ false) ks
listed_here w all [] inside = tt
listed_here w all (j ∷ ks) inside = (
  gone (listed_in all j) (w j) (inside j (first (text_eq j j) (listed_in ks j) (text_eq_refl j))),
  listed_here w all ks (λ k h. inside k (later (text_eq j k) (listed_in ks k) h)),
)
  where
    gone : (a b : Bool) → a ≡ true → (not a && b) ≡ false
    gone a b h = ground arith

    first : (a b : Bool) → a ≡ true → (a || b) ≡ true
    first a b h = ground arith

    later : (a b : Bool) → b ≡ true → (a || b) ≡ true
    later a b h = ground arith

kept_gone : (a b : Bool) → b ≡ false → (not a && b) ≡ false
kept_gone a b h = ground arith

delete_keys-IsBulkDelete : IsBulkDelete delete_keys
delete_keys-IsBulkDelete = record {
  present = λ w k. w k;
  removes = λ w w' keys h.
      subst (λ v. All (λ k. v k ≡ false) keys) (first_eq h) (listed_here w keys keys (λ k q. q));
  creates_none = λ w keys k h. kept_gone (listed_in keys k) (w k) h;
}
  where
    first_eq :
        {v w : Keys} {a b : DeleteObjectsAnswer}
        → ◌≡◌ {A = Keys × DeleteObjectsAnswer} (v, a) (w, b)
        → v ≡ w
    first_eq e = cc

remove_scatter_inodes-Gone_example :
    All
      (λ k.
        delete_keys-IsBulkDelete.present (delete_keys (λ k. true) (codes "a" ∷ codes "b" ∷ [])).0 k
        ≡ false)
      (codes "a" ∷ codes "b" ∷ [])
unfolding remove_scatter_inodes
remove_scatter_inodes-Gone_example =
    remove_scatter_inodes-Gone delete_keys delete_keys-IsBulkDelete (λ k. true)
      (delete_keys (λ k. true) (codes "a" ∷ codes "b" ∷ [])).0 (codes "a" ∷ codes "b" ∷ []) removed
  where
    removed :
        remove_scatter_inodes delete_keys (λ k. true) (codes "a" ∷ codes "b" ∷ [])
        ≡ ((delete_keys (λ k. true) (codes "a" ∷ codes "b" ∷ [])).0, ok tt)
    removed = refl

name_utf8 : is_utf8 (codes "a.b") ≡ true
unfolding is_utf8
name_utf8 = refl

code_given : codes "YS5i" ≢ []
code_given e = cc

-- One name with its base64, in the alphabet of the source.
one_key :
    IsKey
      (λ s. codes "YS5i")
      (λ s. some (codes "a.b"))
      (λ s. some 7)
      (λ s. some s)
      (codes "DIR/d")
      (codes "a.b")
      (codes "c-1")
      (codes "01H")
      7
      delete
      10
one_key = record {
  path_plain = omega arith;
  name_utf8 = name_utf8;
  code_plain = omega arith;
  code_given = code_given;
  code_back = refl;
  ulid_plain = omega arith;
  ulid_back = refl;
  uuid_plain = omega arith;
  uuid_back = refl;
}

abbrev emission : Emission
emission = record {
  filename = codes "a.b";
  uuid = codes "c-1";
  ulid = codes "01H";
  number = 7;
  op = delete;
  last_modified = 10;
}

list_scatter_with_prefix-Complete_example :
    list_scatter_with_prefix
      (λ s. some (codes "a.b"))
      (λ s. some 7)
      (λ s. some s)
      (λ w p.
        ok (
          object_of
            (λ s. codes "YS5i")
            (λ s. some (codes "a.b"))
            (λ s. some 7)
            (λ s. some s)
            (codes "DIR/d")
            emission
          ∷ [])
        ∷ [])
      tt
      (codes "DIR/d/!/")
    ≡ some (
        ok (
          all_events
            (λ s. codes "YS5i")
            (λ s. some (codes "a.b"))
            (λ s. some 7)
            (λ s. some s)
            (codes "DIR/d")
            ((emission ∷ []) ∷ [])))
list_scatter_with_prefix-Complete_example =
    list_scatter_with_prefix-Complete (λ s. codes "YS5i") (λ s. some (codes "a.b")) (λ s. some 7)
      (λ s. some s) (codes "DIR/d")
      (λ w p.
        ok (
          object_of (λ s. codes "YS5i") (λ s. some (codes "a.b")) (λ s. some 7) (λ s. some s)
            (codes "DIR/d") emission
          ∷ [])
        ∷ [])
      tt (codes "DIR/d/!/") ((emission ∷ []) ∷ []) refl ((one_key, tt), tt)
