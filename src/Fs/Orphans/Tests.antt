-- ===== src/Fs/Orphans/Tests.antt =====
-- A collection where every directory names one child.
use hyperdir.Base.{
  ℕ, ◌≡◌, refl, ap, Bool, true, false, [], ◌∷◌, if◌then◌else◌, Text, codes, text_eq, text_eq_iff,
  eq-false_of_ne, ok, inl,
}
use mathlib.Core.List.Memᴰ.{head}
use hyperdir.Base.Int.{pos}
use hyperdir.Layout.{new, dir_uri, file_uri, root_dir_uuid}
use hyperdir.Ondisk.{from, from_raw}
use hyperdir.Probe.Function.{alpha, nothing}
use hyperdir.Fs.Fixture.{Dir, plain_fields, pending_alpha, system, no_client}
use hyperdir.Gc.{ChildStaging, reclaim_child_prefix}
use hyperdir.Fs.{System}
use hyperdir.Fs.Orphans.{listing, fs_list_dir_uuids, fs_gc_orphans}
use hyperdir.Fs.Orphans.Frame.{IsFramed}
use hyperdir.Fs.Orphans.Referenced.{Referenced, fs_gc_orphans-kept}

abbrev bucket : Text
bucket = codes "b"

-- The prefixes that hold something.
abbrev Prefixes : Type 0
Prefixes = Text → Bool

abbrev without : Text → Prefixes → Prefixes
without uri w other_uri = if text_eq other_uri uri then false else w other_uri

abbrev removable : ChildStaging Prefixes ℕ (Unit {0})
removable = record {
  open_child = λ w u. ok tt;
  load_inode = λ w u. ok (1, tt);
  flush_inode = λ w u r s. (w, ok tt);
  unlink = λ w u. (without u w, ok tt);
}

-- Every directory lists the one child `u`.
abbrev prefixes : System Prefixes Dir ℕ (Unit {0})
prefixes =
    system no_client removable (λ w uri. ok nothing)
      (λ uri. pending_alpha (λ w. nothing) (λ w b. w))

abbrev all_full : Prefixes
all_full uri = true

listing-state :
    (w : Prefixes) (d : Text)
    → listing prefixes new bucket w d
      ≡ (w, ok (record { inode = 0; uuid = codes "u"; name = alpha } ∷ []))
unfolding listing text_eq from_raw from
listing-state w d = refl

prefixes-IsFramed : IsFramed prefixes new bucket (λ w uri. w uri)
prefixes-IsFramed = record {
  reclaim_frame = λ w uri other_uri apart.
      frame w uri other_uri (eq-false_of_ne _ λ same. apart ((text_eq_iff other_uri uri).0 same));
  listing_frame = λ w d uri. ap (λ r. r.0 uri) (listing-state w d);
}
  where
    frame :
        (w : Prefixes) (uri other_uri : Text)
        → text_eq other_uri uri ≡ false
        → (reclaim_child_prefix removable plain_fields uri w).0 other_uri ≡ w other_uri
    frame w uri other_uri apart = unfold reclaim_child_prefix in rw apart refl

dirs_listed : fs_list_dir_uuids prefixes new bucket all_full ≡ ok (codes "d" ∷ [])
unfolding fs_list_dir_uuids
dirs_listed = refl

u-Referenced : Referenced prefixes new bucket (λ w uri. w uri) all_full (codes "d" ∷ []) (codes "u")
u-Referenced = inl (
  record { inode = 0; uuid = codes "u"; name = alpha } ∷ [],
  record { inode = 0; uuid = codes "u"; name = alpha },
  ap (λ r. r.1) (listing-state all_full (codes "d")),
  head refl,
  refl,
)

fs_gc_orphans-kept_example :
    ((fs_gc_orphans prefixes new bucket (pos 9_000) 50 all_full).0 (file_uri new bucket (codes "u"))
      ≡ true)
    × ((fs_gc_orphans prefixes new bucket (pos 9_000) 50 all_full).0
          (dir_uri new bucket (codes "u"))
        ≡ true)
    × ((fs_gc_orphans prefixes new bucket (pos 9_000) 50 all_full).0
          (dir_uri new bucket root_dir_uuid)
        ≡ true)
fs_gc_orphans-kept_example =
    fs_gc_orphans-kept prefixes new bucket (λ w uri. w uri) prefixes-IsFramed (pos 9_000) 50
      all_full (codes "d" ∷ []) dirs_listed (codes "u") u-Referenced
