-- ===== src/Fs/Orphans/Frame.antt =====
-- What a collection of orphans leaves alone.
use hyperdir.Base.{
  ℕ, ◌≡◌, ◌≢◌, refl, ap, ◌∙◌, inl, inr, false, ◌||◌, List, [], ◌∷◌, Text, text_eq, Bool-cases,
  Result, ok, err,
}
use hyperdir.Base.Int.{ℤ}
use hyperdir.Ondisk.{DirFileEntry}
use hyperdir.Layout.{HyperDirLayout, root_dir_uuid, dir_uri, file_uri}
use hyperdir.Directory.Compact.{is_empty}
use hyperdir.Gc.{reclaim_child_prefix}
use hyperdir.Fs.{System}
use hyperdir.Fs.Orphans.{
  past_grace, contains, fs_list_dir_uuids, listing, mark_listed, mark, counted, reclaim_old,
  sweep_file, sweep_files, sweep_listed, sweep_dir, sweep_dirs, collect_dirs, collect_marked,
}

module _ {W B R S A : Type 0} (sys : System W B R S) (layout : HyperDirLayout) (bucket : Text)
    (storage : W → Text → A) where
  -- What is asked of hyperfile: a reclaim of one prefix leaves what lies under another, and a
  -- listing leaves all.
  pub record IsFramed : Type 0 where
    pub reclaim_frame :
        (w : W) (uri other_uri : Text)
        → other_uri ≢ uri
        → storage (reclaim_child_prefix sys.child sys.fields uri w).0 other_uri
          ≡ storage w other_uri
    pub listing_frame :
        (w : W) (d uri : Text) → storage (listing sys layout bucket w d).0 uri ≡ storage w uri

  module _ (framed : IsFramed) (now_ms : ℤ) (grace : ℕ) (uri : Text) where
    counted-state : (r : W × Result (Unit {0})) → (counted sys layout bucket r).0 ≡ r.0
    unfolding counted
    counted-state (w, ok _) = refl
    counted-state (w, err _) = refl

    reclaim_old-frame :
        (w : W) (gone : Text)
        → uri ≢ gone
        → storage (reclaim_old sys layout bucket now_ms grace w gone).0 uri ≡ storage w uri
    unfolding reclaim_old
    reclaim_old-frame w gone apart =
        elim (Bool-cases (past_grace now_ms grace (sys.st_ctime w gone))) [
          | inl old ↦ rw old (
              ap (λ v. storage v uri)
                (counted-state (reclaim_child_prefix sys.child sys.fields gone w))
              ∙ framed.reclaim_frame w gone uri apart)
          | inr young ↦ rw young refl
        ]

    mark_listed-state :
        (referenced : List Text) (r : W × Result (List (DirFileEntry R)))
        → (mark_listed sys layout bucket referenced r).0 ≡ r.0
    unfolding mark_listed
    mark_listed-state referenced (w, ok _) = refl
    mark_listed-state referenced (w, err _) = refl

    pub mark-frame :
        (ds : List Text) (w : W) (referenced : List Text)
        → storage (mark sys layout bucket w referenced ds).0 uri ≡ storage w uri
    unfolding mark
    mark-frame [] w referenced = refl
    mark-frame (d ∷ ds) w referenced =
        mark-frame ds _ _
        ∙ ap (λ v. storage v uri) (mark_listed-state referenced (listing sys layout bucket w d))
        ∙ framed.listing_frame w d uri

    module _ (referenced : List Text)
        (apart_files : (fu : Text)
          → contains referenced fu ≡ false
          → uri ≢ file_uri layout bucket fu)
        (apart_dirs : (du : Text)
          → (text_eq du root_dir_uuid || contains referenced du) ≡ false
          → uri ≢ dir_uri layout bucket du) where
      sweep_file-frame :
          (w : W) (fu : Text)
          → storage (sweep_file sys layout bucket now_ms grace referenced w fu).0 uri
            ≡ storage w uri
      unfolding sweep_file
      sweep_file-frame w fu = elim (Bool-cases (contains referenced fu)) [
        | inl keep ↦ rw keep refl
        | inr sweep ↦
            rw sweep (reclaim_old-frame w (file_uri layout bucket fu) (apart_files fu sweep))
      ]

      sweep_files-frame :
          (files : List Text) (w : W) (reclaimed : ℕ)
          → storage (sweep_files sys layout bucket now_ms grace referenced w reclaimed files).0 uri
            ≡ storage w uri
      unfolding sweep_files
      sweep_files-frame [] w reclaimed = refl
      sweep_files-frame (fu ∷ rest) w reclaimed = sweep_files-frame rest _ _ ∙ sweep_file-frame w fu

      sweep_listed-frame :
          (du : Text) (r : W × Result (List (DirFileEntry R)))
          → uri ≢ dir_uri layout bucket du
          → storage (sweep_listed sys layout bucket now_ms grace du r).0 uri ≡ storage r.0 uri
      unfolding sweep_listed
      sweep_listed-frame du (w, ok entries) apart = elim (Bool-cases (is_empty entries)) [
        | inl empty ↦ rw empty (reclaim_old-frame w (dir_uri layout bucket du) apart)
        | inr full ↦ rw full refl
      ]
      sweep_listed-frame du (w, err _) apart = refl

      sweep_dir-frame :
          (w : W) (du : Text)
          → storage (sweep_dir sys layout bucket now_ms grace referenced w du).0 uri ≡ storage w uri
      unfolding sweep_dir
      sweep_dir-frame w du =
          elim (Bool-cases (text_eq du root_dir_uuid || contains referenced du)) [
            | inl keep ↦ rw keep refl
            | inr sweep ↦ rw sweep (
                sweep_listed-frame du (listing sys layout bucket w du) (apart_dirs du sweep)
                ∙ framed.listing_frame w du uri)
          ]

      sweep_dirs-frame :
          (dirs : List Text) (w : W) (reclaimed : ℕ)
          → storage (sweep_dirs sys layout bucket now_ms grace referenced w reclaimed dirs).0 uri
            ≡ storage w uri
      unfolding sweep_dirs
      sweep_dirs-frame [] w reclaimed = refl
      sweep_dirs-frame (du ∷ rest) w reclaimed = sweep_dirs-frame rest _ _ ∙ sweep_dir-frame w du

      collect_dirs-frame :
          (swept : W × ℕ) (listed : Result (List Text))
          → storage (collect_dirs sys layout bucket now_ms grace referenced swept listed).0 uri
            ≡ storage swept.0 uri
      unfolding collect_dirs
      collect_dirs-frame (w, reclaimed) (err e) = refl
      collect_dirs-frame (w, reclaimed) (ok dirs) = sweep_dirs-frame dirs w reclaimed

      pub collect_marked-frame :
          (w : W) (listed : Result (List Text))
          → storage (collect_marked sys layout bucket now_ms grace (w, referenced) listed).0 uri
            ≡ storage w uri
      unfolding collect_marked
      collect_marked-frame w (err e) = refl
      collect_marked-frame w (ok files) =
          collect_dirs-frame (sweep_files sys layout bucket now_ms grace referenced w 0 files) (
            fs_list_dir_uuids sys layout bucket
              (sweep_files sys layout bucket now_ms grace referenced w 0 files).0)
          ∙ sweep_files-frame files w 0
