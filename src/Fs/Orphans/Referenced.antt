-- ===== src/Fs/Orphans/Referenced.antt =====
-- A child that a directory names is not collected.
use hyperdir.Base.{
  ℕ, ◌≡◌, ◌≢◌, refl, sym, ap, ◌∙◌, ◌⊎◌, inl, inr, Bool, true, false, ◌||◌, List, [], ◌∷◌, ◌++◌, any,
  map, arith, Text, text_eq, text_eq_refl, Result, ok, err,
}
use mathlib.Core.Path.{subst}
use mathlib.Core.List.Memᴰ.{Memᴰ, head, tail}
use hyperdir.Ondisk.{DirFileEntry}
use hyperdir.Base.Int.{ℤ}
use hyperdir.Layout.{HyperDirLayout, root_dir_uuid, dir_uri, file_uri}
use hyperdir.Layout.Keys.{file_uri_injective, dir_uri_injective, dir_uri_ne}
use hyperdir.Fs.{System}
use hyperdir.Fs.Orphans.{
  contains, fs_list_dir_uuids, fs_list_file_uuids, listing, mark_listed, mark, fs_gc_orphans,
  collect_listed,
}
use hyperdir.Fs.Orphans.Frame.{IsFramed, mark-frame, collect_marked-frame}

module _ {W B R S A : Type 0} (sys : System W B R S) (layout : HyperDirLayout) (bucket : Text)
    (storage : W → Text → A) where
  -- A uuid that an entry has of the listing of one of the directories, listed one after another
  -- from the state `w` on.
  abbrev pub Referenced : W → List Text → Text → Type 0
  Referenced w [] uuid = ⊥
  Referenced w (d ∷ ds) uuid =
      ((entries : List (DirFileEntry R)) × (e : DirFileEntry R) × ((listing sys layout bucket w d).1
          ≡ ok entries)
        × Memᴰ e entries
        × (e.uuid ≡ uuid))
      ⊎ Referenced (listing sys layout bucket w d).0 ds uuid

  or_true : (b : Bool) → (b || true) ≡ true
  or_true b = ground arith

  contains-append :
      (xs ys : List Text) (uuid : Text)
      → contains (xs ++ ys) uuid ≡ (contains xs uuid || contains ys uuid)
  unfolding contains any
  contains-append [] ys uuid = ground arith
  contains-append (x ∷ xs) ys uuid = ground (arith, contains-append xs ys uuid)

  contains-entries :
      (entries : List (DirFileEntry R)) (e : DirFileEntry R)
      → Memᴰ e entries
      → contains (map (λ e. e.uuid) entries) e.uuid ≡ true
  unfolding contains any
  contains-entries [] e m = elim m [ ]
  contains-entries (_ ∷ entries) e (head same) =
      rw (ap (λ x. x.uuid) (sym same), text_eq_refl e.uuid) refl
  contains-entries (a ∷ entries) e (tail m) = rw (contains-entries entries e m) (or_true _)

  mark_listed-keeps :
      (referenced : List Text) (uuid : Text) (r : W × Result (List (DirFileEntry R)))
      → contains referenced uuid ≡ true
      → contains (mark_listed sys layout bucket referenced r).1 uuid ≡ true
  unfolding mark_listed
  mark_listed-keeps referenced uuid (w, ok entries) h =
      rw (contains-append (map (λ e. e.uuid) entries) referenced uuid, h) (or_true _)
  mark_listed-keeps referenced uuid (w, err e) h = h

  mark_listed-state :
      (referenced : List Text) (r : W × Result (List (DirFileEntry R)))
      → (mark_listed sys layout bucket referenced r).0 ≡ r.0
  unfolding mark_listed
  mark_listed-state referenced (w, ok _) = refl
  mark_listed-state referenced (w, err _) = refl

  mark_listed-marks :
      (referenced : List Text) (entries : List (DirFileEntry R)) (e : DirFileEntry R)
      (r : W × Result (List (DirFileEntry R)))
      → r.1 ≡ ok entries
      → Memᴰ e entries
      → contains (mark_listed sys layout bucket referenced r).1 e.uuid ≡ true
  unfolding mark_listed
  mark_listed-marks referenced entries e (w, ok shown) is m =
      rw
        (
          contains-append (map (λ e. e.uuid) shown) referenced e.uuid,
          contains-entries shown e (subst (Memᴰ e) listed m),
        )
        refl
    where
      listed : entries ≡ shown
      listed = cc
  mark_listed-marks referenced entries e (w, err _) is m = cc

  mark-keeps :
      (ds : List Text) (w : W) (referenced : List Text) (uuid : Text)
      → contains referenced uuid ≡ true
      → contains (mark sys layout bucket w referenced ds).1 uuid ≡ true
  unfolding mark
  mark-keeps [] w referenced uuid h = h
  mark-keeps (d ∷ ds) w referenced uuid h =
      mark-keeps ds _ _ uuid (mark_listed-keeps referenced uuid (listing sys layout bucket w d) h)

  -- The collector marks what is referenced.
  mark-Referenced :
      (ds : List Text) (w : W) (referenced : List Text) (uuid : Text)
      → Referenced w ds uuid
      → contains (mark sys layout bucket w referenced ds).1 uuid ≡ true
  unfolding mark
  mark-Referenced [] w referenced uuid h = elim h [ ]
  mark-Referenced (d ∷ ds) w referenced uuid (inl (entries, e, lists, m, same)) =
      mark-keeps ds _ _ uuid (
        rw (sym same)
          (mark_listed-marks referenced entries e (listing sys layout bucket w d) lists m))
  mark-Referenced (d ∷ ds) w referenced uuid (inr later) = mark-Referenced ds _ _ uuid (
      subst (λ v. Referenced v ds uuid)
        (sym (mark_listed-state referenced (listing sys layout bucket w d))) later)

  module _ (framed : IsFramed sys layout bucket storage) (now_ms : ℤ) (grace : ℕ) (w : W)
      (dirs : List Text) (lists : fs_list_dir_uuids sys layout bucket w ≡ ok dirs) where
    abbrev Marked : Text → Type 0
    Marked uuid = contains (mark sys layout bucket w [] dirs).1 uuid ≡ true

    collection-frame :
        (uri : Text)
        → ((fu : Text)
            → contains (mark sys layout bucket w [] dirs).1 fu ≡ false
            → uri ≢ file_uri layout bucket fu)
        → ((du : Text)
            → (text_eq du root_dir_uuid || contains (mark sys layout bucket w [] dirs).1 du) ≡ false
            → uri ≢ dir_uri layout bucket du)
        → storage (fs_gc_orphans sys layout bucket now_ms grace w).0 uri ≡ storage w uri
    unfolding fs_gc_orphans collect_listed
    collection-frame uri files subdirs =
        ap (λ l. storage (collect_listed sys layout bucket now_ms grace w l).0 uri) lists
        ∙ collect_marked-frame sys layout bucket storage framed now_ms grace uri
            (mark sys layout bucket w [] dirs).1 files subdirs (mark sys layout bucket w [] dirs).0
            (fs_list_file_uuids sys layout bucket (mark sys layout bucket w [] dirs).0)
        ∙ mark-frame sys layout bucket storage framed now_ms grace uri dirs w []

    named_apart :
        (u v : Text) → Marked u → contains (mark sys layout bucket w [] dirs).1 v ≡ false → u ≢ v
    named_apart u v named unnamed same =
        differ _ named (ap (contains (mark sys layout bucket w [] dirs).1) same ∙ unnamed)
      where
        differ : (b : Bool) → b ≡ true → b ≢ false
        differ b x y = cc

    second_false : (a b : Bool) → (a || b) ≡ false → b ≡ false
    second_false true b h = cc
    second_false false b h = h

    first_false : (a b : Bool) → (a || b) ≡ false → a ≡ false
    first_false true b h = cc
    first_false false b h = refl

    root_kept : (du : Text) → text_eq du root_dir_uuid ≡ false → root_dir_uuid ≢ du
    root_kept du differ same =
        apart _ (ap (λ u. text_eq u root_dir_uuid) (sym same) ∙ text_eq_refl root_dir_uuid) differ
      where
        apart : (b : Bool) → b ≡ true → b ≢ false
        apart b x y = cc

    -- The root directory stays, whatever is referenced.
    root_stays :
        storage
          (fs_gc_orphans sys layout bucket now_ms grace w).0
          (dir_uri layout bucket root_dir_uuid)
        ≡ storage w (dir_uri layout bucket root_dir_uuid)
    root_stays =
        collection-frame (dir_uri layout bucket root_dir_uuid)
          (λ fu unnamed same. dir_uri_ne layout bucket root_dir_uuid fu same)
          (λ du unnamed same.
            root_kept du (first_false _ _ unnamed)
              (dir_uri_injective layout bucket root_dir_uuid du same))

    -- When an entry of the listing of some directory has the uuid, a collection of the orphans leaves
    -- the storage of the file and of the directory with this uuid as it was, and that of the root
    -- directory, however old they are; the listing of the directories must succeed, and hyperfile's
    -- reclaim of one prefix leaves the others.
    pub fs_gc_orphans-kept :
        (uuid : Text)
        → Referenced w dirs uuid
        → (storage (fs_gc_orphans sys layout bucket now_ms grace w).0 (file_uri layout bucket uuid)
            ≡ storage w (file_uri layout bucket uuid))
          × (storage (fs_gc_orphans sys layout bucket now_ms grace w).0 (dir_uri layout bucket uuid)
              ≡ storage w (dir_uri layout bucket uuid))
          × (storage
                (fs_gc_orphans sys layout bucket now_ms grace w).0
                (dir_uri layout bucket root_dir_uuid)
              ≡ storage w (dir_uri layout bucket root_dir_uuid))
    fs_gc_orphans-kept uuid referenced =
        let named = mark-Referenced dirs w [] uuid referenced in
        (
          collection-frame (file_uri layout bucket uuid)
              (λ fu unnamed same.
                named_apart uuid fu named unnamed (file_uri_injective layout bucket uuid fu same))
              (λ du unnamed same. dir_uri_ne layout bucket du uuid (sym same)),
          collection-frame (dir_uri layout bucket uuid)
              (λ fu unnamed same. dir_uri_ne layout bucket uuid fu same)
              (λ du unnamed same.
                named_apart uuid du named (second_false _ _ unnamed)
                  (dir_uri_injective layout bucket uuid du same)),
          root_stays,
        )
