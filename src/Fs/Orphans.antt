-- ===== src/Fs/Orphans.antt =====
-- The collection of children that no directory names (`fs_gc_orphans` and `list_namespace_uuids` of
-- src/fs.rs). `now_ms` is the clock that it reads; no other client acts.
pub mod Frame
pub mod Referenced
mod Tests
use hyperdir.Base.{
  ℕ, suc, ◌+◌, ◌-◌, ◌*◌, ◌^◌, Bool, true, false, not, ◌&&◌, ◌||◌, Option, none, some, List, [], ◌∷◌,
  ◌++◌, any, map, min, if◌then◌else◌, Text, text_eq, other, Result, ok, err, ◌>>=◌,
}
use hyperdir.Base.Int.{ℤ, pos, negsuc, lez, ◌+ℤ◌}
use hyperdir.Layout.{
  HyperDirLayout, root_dir_uuid, trim_end_matches, dir_uri, file_uri, dir_prefix, file_prefix,
}
use hyperdir.Ondisk.{DirFileEntry}
use hyperdir.Wire.{strip_prefix}
use hyperdir.Directory.{◌>>>=◌}
use hyperdir.Directory.Compact.{is_empty}
use hyperdir.Directory.Listing.{read_dir}
use hyperdir.Gc.{reclaim_child_prefix}
use hyperdir.Fs.{System, fs_open_dir}
use hyperdir.Fs.Remove.{duration_ms}

-- `i64::saturating_mul` by 1000.
abbrev pub thousandfold : ℤ → ℤ
thousandfold (pos n) = pos (min (n * 1_000) (2 ^ 63 - 1))
thousandfold (negsuc n) = negsuc (min ((n + 1) * 1_000 - 1) (2 ^ 63 - 1))

-- `now_ms - st_ctime * 1000 >= grace_ms`, for a difference in the range of `i64`.
abbrev pub past_grace : ℤ → ℕ → Result ℤ → Bool
past_grace now_ms grace (err _) = false
past_grace now_ms grace (ok st_ctime) = lez (duration_ms grace +ℤ thousandfold st_ctime) now_ms

unfoldable pub contains : List Text → Text → Bool
unfolding any text_eq
contains set uuid = any (λ u. text_eq u uuid) set

-- `unwrap_or`
abbrev pub or_whole : Text → Option Text → Text
or_whole p none = p
or_whole p (some rest) = rest

abbrev pub onto : {A : Type 0} → Option A → List A → List A
onto none rest = rest
onto (some a) rest = a ∷ rest

module _ {W B R S : Type 0} (sys : System W B R S) where
  unfoldable pub uuids_of : Text → List Text → List Text
  unfolding strip_prefix trim_end_matches
  uuids_of prefix [] = []
  uuids_of prefix (p ∷ ps) =
      onto (sys.parse_uuid (trim_end_matches 47 (or_whole p (strip_prefix prefix p))))
        (uuids_of prefix ps)

  unfoldable pub uuid_pages : Text → List (Result (List Text)) → Result (List Text)
  unfolding uuids_of
  uuid_pages prefix [] = ok []
  uuid_pages prefix (err _ ∷ pages) = err other
  uuid_pages prefix (ok ps ∷ pages) = do
    rest ← uuid_pages prefix pages
    ok (uuids_of prefix ps ++ rest)

  unfoldable pub list_namespace_uuids : W → Text → Result (List Text)
  unfolding uuid_pages
  list_namespace_uuids w prefix = uuid_pages prefix (sys.list_prefixes w prefix)

  module _ (layout : HyperDirLayout) (bucket : Text) where
    unfoldable pub fs_list_dir_uuids : W → Result (List Text)
    unfolding list_namespace_uuids dir_prefix
    fs_list_dir_uuids w = list_namespace_uuids w (dir_prefix layout)

    unfoldable pub fs_list_file_uuids : W → Result (List Text)
    unfolding list_namespace_uuids file_prefix
    fs_list_file_uuids w = list_namespace_uuids w (file_prefix layout)

    -- The listing of one directory.
    unfoldable pub listing : W → Text → W × Result (List (DirFileEntry R))
    unfolding fs_open_dir read_dir dir_uri
    listing w d = (w, fs_open_dir sys layout bucket w d) >>>= λ w _.
        read_dir sys.tree sys.cursor (sys.dirs (dir_uri layout bucket d)) sys.fields.from_u8_slice
          sys.lossy (λ i. i) (λ n w. w) w

    -- A directory that cannot be read adds nothing.
    unfoldable pub mark_listed : List Text → W × Result (List (DirFileEntry R)) → W × List Text
    mark_listed referenced (w, ok entries) = (w, map (λ e. e.uuid) entries ++ referenced)
    mark_listed referenced (w, err _) = (w, referenced)

    unfoldable pub mark : W → List Text → List Text → W × List Text
    unfolding mark_listed listing
    mark w referenced [] = (w, referenced)
    mark w referenced (d ∷ ds) =
        let (w', referenced') = mark_listed referenced (listing w d) in mark w' referenced' ds

    -- How many the reclaim of one prefix counts for.
    unfoldable pub counted : W × Result (Unit {0}) → W × ℕ
    counted (w, ok _) = (w, 1)
    counted (w, err _) = (w, 0)

    unfoldable pub reclaim_old : ℤ → ℕ → W → Text → W × ℕ
    unfolding counted reclaim_child_prefix ◌+ℤ◌
    reclaim_old now_ms grace w uri =
        if past_grace now_ms grace (sys.st_ctime w uri)
        then counted (reclaim_child_prefix sys.child sys.fields uri w)
        else (w, 0)

    -- One file, and the loop over the files.
    unfoldable pub sweep_file : ℤ → ℕ → List Text → W → Text → W × ℕ
    unfolding reclaim_old contains file_uri
    sweep_file now_ms grace referenced w fu =
        if contains referenced fu
        then (w, 0)
        else reclaim_old now_ms grace w (file_uri layout bucket fu)

    unfoldable pub sweep_files : ℤ → ℕ → List Text → W → ℕ → List Text → W × ℕ
    unfolding sweep_file
    sweep_files now_ms grace referenced w reclaimed [] = (w, reclaimed)
    sweep_files now_ms grace referenced w reclaimed (fu ∷ rest) =
        let (w', k) = sweep_file now_ms grace referenced w fu in
        sweep_files now_ms grace referenced w' (reclaimed + k) rest

    -- An unreferenced directory goes only if its listing is empty.
    unfoldable pub sweep_listed : ℤ → ℕ → Text → W × Result (List (DirFileEntry R)) → W × ℕ
    unfolding reclaim_old dir_uri
    sweep_listed now_ms grace du (w, ok entries) =
        if is_empty entries then reclaim_old now_ms grace w (dir_uri layout bucket du) else (w, 0)
    sweep_listed now_ms grace du (w, err _) = (w, 0)

    -- One directory, and the loop over the directories.
    unfoldable pub sweep_dir : ℤ → ℕ → List Text → W → Text → W × ℕ
    unfolding sweep_listed listing contains text_eq
    sweep_dir now_ms grace referenced w du =
        if text_eq du root_dir_uuid || contains referenced du
        then (w, 0)
        else sweep_listed now_ms grace du (listing w du)

    unfoldable pub sweep_dirs : ℤ → ℕ → List Text → W → ℕ → List Text → W × ℕ
    unfolding sweep_dir
    sweep_dirs now_ms grace referenced w reclaimed [] = (w, reclaimed)
    sweep_dirs now_ms grace referenced w reclaimed (du ∷ rest) =
        let (w', k) = sweep_dir now_ms grace referenced w du in
        sweep_dirs now_ms grace referenced w' (reclaimed + k) rest

    -- The directories, listed again after the files.
    unfoldable pub collect_dirs : ℤ → ℕ → List Text → W × ℕ → Result (List Text) → W × Result ℕ
    unfolding sweep_dirs
    collect_dirs now_ms grace referenced (w, reclaimed) (err e) = (w, err e)
    collect_dirs now_ms grace referenced (w, reclaimed) (ok dirs) =
        let (w', total) = sweep_dirs now_ms grace referenced w reclaimed dirs in (w', ok total)

    -- The files, listed after the marks.
    unfoldable pub collect_marked : ℤ → ℕ → W × List Text → Result (List Text) → W × Result ℕ
    unfolding sweep_files collect_dirs fs_list_dir_uuids
    collect_marked now_ms grace (w, referenced) (err e) = (w, err e)
    collect_marked now_ms grace (w, referenced) (ok files) =
        let swept = sweep_files now_ms grace referenced w 0 files in
        collect_dirs now_ms grace referenced swept (fs_list_dir_uuids swept.0)

    unfoldable pub collect_listed : ℤ → ℕ → W → Result (List Text) → W × Result ℕ
    unfolding mark collect_marked fs_list_file_uuids
    collect_listed now_ms grace w (err e) = (w, err e)
    collect_listed now_ms grace w (ok dirs) =
        let marked = mark w [] dirs in
        collect_marked now_ms grace marked (fs_list_file_uuids marked.0)

    unfoldable pub fs_gc_orphans : ℤ → ℕ → W → W × Result ℕ
    unfolding collect_listed fs_list_dir_uuids
    fs_gc_orphans now_ms grace w = collect_listed now_ms grace w (fs_list_dir_uuids w)
