-- ===== src/Staging/Listing/Complete.antt =====
-- A listing shows every event that was emitted under its prefix.
use hyperdir.Base.{
  ℕ, ◌≡◌, ◌≢◌, refl, ap, ◌∙◌, Bool, true, false, ◌||◌, Option, none, some, List, [], ◌∷◌, ◌++◌, map,
  length, length-append, arith, All, Text, codes, text_eq, text_eq_refl, text_eq_sound,
  eq-false_of_ne, Result, ok,
}
use hyperdir.Scatter.{
  DirScatterInodeOp, create, update, pre_delete, delete, unknown, DirScatterInode, as_u8,
}
use hyperdir.Staging.{path_encode}
use hyperdir.Staging.Keys.{with_head, strip_suffix, then_some}
use hyperdir.Staging.Parts.{suffix_of}
use hyperdir.Staging.Emitted.{IsKey, path_decode-path_encode, key_suffix}
use hyperdir.Staging.Listing.{
  is_some, ends_with, is_scatter_key, decode_objects, decode_pages, list_scatter_with_prefix,
}

longer : (c : ℕ) (s t : Text) → text_eq (c ∷ (s ++ t)) t ≡ false
longer c s t = eq-false_of_ne _ λ same. apart (ap length (text_eq_sound (c ∷ (s ++ t)) t same))
  where
    apart : length (c ∷ (s ++ t)) ≢ length t
    apart q = omega (arith, length-append s t)

some_head : (c : ℕ) (o : Option Text) → is_some o ≡ true → is_some (with_head c o) ≡ true
some_head c none h = h
some_head c (some s) h = refl

ends_with-append : (s t : Text) → t ≢ [] → ends_with t (s ++ t) ≡ true
unfolding ends_with strip_suffix
ends_with-append [] [] ne = absurd (ne refl)
ends_with-append [] (c ∷ t) ne = rw (text_eq_refl (c ∷ t)) refl
ends_with-append (c ∷ s) t ne = rw (longer c s t) (some_head c _ (ends_with-append s t ne))

ne_inode : codes ".inode" ≢ []
ne_inode e = cc

ne_tombstone : codes ".tombstone" ≢ []
ne_tombstone e = cc

first : (a b : Bool) → a ≡ true → (a || b) ≡ true
first a b h = ground arith

second : (a b : Bool) → b ≡ true → (a || b) ≡ true
second a b h = ground arith

-- An event as it is emitted.
pub record Emission : Type 0 where
  pub filename : Text
  pub uuid : Text
  pub ulid : Text
  pub number : ℕ
  pub op : DirScatterInodeOp
  pub last_modified : ℕ

module _ (base64 : Text → Text) (decode : Text → Option Text) (parse_ulid : Text → Option ℕ)
    (parse_uuid : Text → Option Text) (root_path : Text) where
  abbrev pub IsEmitted : Emission → Type 0
  IsEmitted em =
      IsKey base64 decode parse_ulid parse_uuid root_path em.filename em.uuid em.ulid em.number
        em.op em.last_modified

  -- Its key, with the time of the object, and what a listing should show of it.
  abbrev pub object_of : Emission → Text × ℕ
  object_of em =
      (path_encode base64 em.ulid root_path em.filename em.uuid (as_u8 em.op), em.last_modified)

  abbrev pub event_of : Emission → DirScatterInode
  event_of em = record {
    key = (object_of em).0;
    op = em.op;
    ulid = em.number;
    uuid = em.uuid;
    filename = em.filename;
    last_modified = em.last_modified;
  }

  suffix_scatter : (op : DirScatterInodeOp) (s : Text) → is_scatter_key (s ++ suffix_of op) ≡ true
  unfolding is_scatter_key as_u8
  suffix_scatter create s = first _ _ (ends_with-append s (codes ".inode") ne_inode)
  suffix_scatter update s = first _ _ (ends_with-append s (codes ".inode") ne_inode)
  suffix_scatter pre_delete s = first _ _ (ends_with-append s (codes ".inode") ne_inode)
  suffix_scatter delete s = second _ _ (ends_with-append s (codes ".tombstone") ne_tombstone)
  suffix_scatter unknown s = first _ _ (ends_with-append s (codes ".inode") ne_inode)

  is_listed : (em : Emission) → IsEmitted em → is_scatter_key (object_of em).0 ≡ true
  is_listed em h =
      ap is_scatter_key (
        key_suffix base64 decode parse_ulid parse_uuid root_path em.filename em.uuid em.ulid
          em.number em.op em.last_modified h)
      ∙ suffix_scatter em.op _

  decode_objects-object_of :
      (ems : List Emission)
      → All IsEmitted ems
      → decode_objects decode parse_ulid parse_uuid (map object_of ems) ≡ some (map event_of ems)
  unfolding decode_objects
  decode_objects-object_of [] h = refl
  decode_objects-object_of (em ∷ ems) (here, rest) =
      rw
        (
          is_listed em here,
          path_decode-path_encode base64 decode parse_ulid parse_uuid root_path em.filename em.uuid
              em.ulid em.number em.op em.last_modified here,
          decode_objects-object_of ems rest,
        )
        refl

  -- The events of all pages, in their order.
  abbrev pub all_events : List (List Emission) → List DirScatterInode
  all_events [] = []
  all_events (ems ∷ pages) = map event_of ems ++ all_events pages

  decode_pages-object_of :
      (pages : List (List Emission))
      → All (All IsEmitted) pages
      → decode_pages decode parse_ulid parse_uuid (map (λ ems. ok (map object_of ems)) pages)
        ≡ some (all_events pages)
  unfolding decode_pages
  decode_pages-object_of [] h = refl
  decode_pages-object_of (ems ∷ pages) (here, rest) =
      rw (decode_objects-object_of ems here, decode_pages-object_of pages rest) refl

  -- Where no page of a listing fails and the pages hold the objects of emitted events, the listing of
  -- scatter objects shows exactly these events, each with its operation, ULID, uuid and name, in the
  -- order of the pages.
  pub list_scatter_with_prefix-Complete :
      {W : Type 0} (list_objects : W → Text → List (Result (List (Text × ℕ)))) (w : W)
      (prefix : Text) (pages : List (List Emission))
      → list_objects w prefix ≡ map (λ ems. ok (map object_of ems)) pages
      → All (All IsEmitted) pages
      → list_scatter_with_prefix decode parse_ulid parse_uuid list_objects w prefix
        ≡ some (ok (all_events pages))
  unfolding list_scatter_with_prefix
  list_scatter_with_prefix-Complete list_objects w prefix pages lists h =
      ap
        (λ ps.
          then_some (decode_pages decode parse_ulid parse_uuid ps) λ scatters. some (ok scatters))
        lists
      ∙ ap (λ o. then_some o λ scatters. some (ok scatters)) (decode_pages-object_of pages h)
