-- ===== src/Fs/Move/Applied.antt =====
-- The forward steps of a rename move one binding between the finite maps of two directories.
use hyperdir.Base.{
  ◌≤◌, ◌≡◌, ◌≢◌, refl, sym, ◌∙◌, inl, inr, Bool, true, Option, none, some, Text, Result, ok, err,
}
use hyperdir.Layout.{HyperDirLayout, dir_uri}
use hyperdir.Layout.Keys.{dir_uri_injective}
use hyperdir.Ondisk.{DirFileEntryRaw}
use hyperdir.Probe.{u64_max, named}
use hyperdir.Probe.Slots.{IsMap, Models, update}
use hyperdir.Probe.Upsert.{probe_upsert-Models}
use hyperdir.Probe.Remove.{probe_delete-Models}
use hyperdir.Directory.{◌>>>=◌, chain_ok}
use hyperdir.Directory.Entries.{load_latest_bmap, flush_tree, insert_entry, remove_entry}
use hyperdir.Fs.{System, fs_open_dir}
use hyperdir.Fs.Intent.{RenameIntent}
use hyperdir.Fs.Move.{moved_entry, apply_destination, apply_source, apply_rename_intent}

-- What is asked of hyperfile's handles: a load gives the tree that opening gives, and a flush that
-- succeeds leaves its tree under its own URI and the trees under all others.
pub record IsDirs {W B R S : Type 0} (sys : System W B R S) : Type 0 where
  pub load_opens : (w : W) (uri : Text) → (sys.dirs uri).load_bmap w ≡ sys.open_dir w uri
  pub flush_leaves :
      (w w' : W) (uri : Text) (b : B)
      → (sys.dirs uri).flush w b ≡ (w', ok tt)
      → (sys.open_dir w' uri ≡ ok b)
        × ((other_uri : Text)
            → other_uri ≢ uri
            → sys.open_dir w' other_uri ≡ sys.open_dir w other_uri)

module _ {W B R S : Type 0} (sys : System W B R S) (h : IsMap sys.tree) (dirs : IsDirs sys)
    (small : (name : Text) → sys.crc64 name ≤ u64_max) where
  -- The directory under this URI stands for the map `f`.
  abbrev pub Stands : W → Text → (Text → Option (DirFileEntryRaw R)) → Type 0
  Stands w uri f = (b : B) × (sys.open_dir w uri ≡ ok b) × Models sys.crc64 (h.content b) f

  -- The directories under all other URIs are as before.
  abbrev pub Others : Text → W → W → Type 0
  Others uri w w' =
      (other_uri : Text) → other_uri ≢ uri → sys.open_dir w' other_uri ≡ sys.open_dir w other_uri

  flushed :
      {A : Type 0} (w w' : W) (uri : Text) (b : B) (a : A) (r : B × A)
      → flush_tree sys.tree sys.crc64 (sys.dirs uri) w b a ≡ (w', ok r)
      → (sys.dirs uri).flush w b ≡ (w', ok tt)
  unfolding flush_tree
  flushed {A} w w' uri b a r q = go ((sys.dirs uri).flush w b) refl q
    where
      go :
          (o : W × Result (Unit {0}))
          → (sys.dirs uri).flush w b ≡ o
          → ◌≡◌ {A = W × Result (B × A)} (o >>>= λ w' _. (w', ok (b, a))) (w', ok r)
          → (sys.dirs uri).flush w b ≡ (w', ok tt)
      go (v, ok u) e q = cc
      go (v, err u) e q = cc

  inserted :
      (w w' : W) (uri name : Text) (e : DirFileEntryRaw R) (r : B × Unit {0})
      (f : Text → Option (DirFileEntryRaw R))
      → Stands w uri f
      → named e name ≡ true
      → insert_entry sys.tree sys.crc64 (sys.dirs uri) w name e ≡ (w', ok r)
      → Stands w' uri (update f name (some e)) × Others uri w w'
  unfolding insert_entry load_latest_bmap
  inserted w w' uri name e r f (b, opens, models) fits q =
      elim (probe_upsert-Models sys.tree sys.crc64 h b f name e models fits (small name)) [
        | inl (b', upserts, models') ↦
            let done =
              dirs.flush_leaves w w' uri b'
                (flushed w w' uri b' tt r (rw (dirs.load_opens w uri, opens, upserts) at q)) in
            ((b', done.0, models'), done.1)
        | inr (fails, full) ↦ cc (rw (dirs.load_opens w uri, opens, fails) at q)
      ]

  taken_out :
      (w w' : W) (uri name : Text) (r : B × Bool) (f : Text → Option (DirFileEntryRaw R))
      → Stands w uri f
      → remove_entry sys.tree sys.crc64 (sys.dirs uri) w name ≡ (w', ok r)
      → Stands w' uri (update f name none) × Others uri w w'
  unfolding remove_entry load_latest_bmap
  taken_out w w' uri name r f (b, opens, models) q =
      let (b', deletes, models') =
        probe_delete-Models sys.tree sys.crc64 h b f name models (small name) in
      let done =
        dirs.flush_leaves w w' uri b'
          (flushed w w' uri b' _ r (rw (dirs.load_opens w uri, opens, deletes) at q)) in
      ((b', done.0, models'), done.1)

  last_ok :
      {A : Type 0} (r : W × Result A) (w' : W)
      → (r >>>= λ w _. (w, ok tt)) ≡ (w', ok tt)
      → (a : A) × (r ≡ (w', ok a))
  last_ok (v, ok a) w' q = (a, cc)
  last_ok (v, err e) w' q = cc

  module _ (layout : HyperDirLayout) (bucket : Text) (intent : RenameIntent)
      (fits : named (moved_entry sys layout bucket intent) intent.dst_name ≡ true)
      (f_src f_dst : Text → Option (DirFileEntryRaw R)) where
    abbrev pub src_uri : Text
    src_uri = dir_uri layout bucket intent.src_parent

    abbrev pub dst_uri : Text
    dst_uri = dir_uri layout bucket intent.dst_parent

    -- The map of the destination with the new name, and that of the source without the old one.
    abbrev pub with_name : Text → Option (DirFileEntryRaw R)
    with_name = update f_dst intent.dst_name (some (moved_entry sys layout bucket intent))

    abbrev pub without_name : Text → Option (DirFileEntryRaw R)
    without_name = update f_src intent.src_name none

    destination_applied :
        (w w' : W)
        → Stands w dst_uri f_dst
        → apply_destination sys layout bucket w intent ≡ (w', ok tt)
        → Stands w' dst_uri with_name × Others dst_uri w w'
    unfolding apply_destination fs_open_dir
    destination_applied w w' (b, opens, models) q =
        let (r, inserts) =
          last_ok
            (insert_entry sys.tree sys.crc64 (sys.dirs dst_uri) w intent.dst_name
              (moved_entry sys layout bucket intent))
            w' (rw opens at q) in
        inserted w w' dst_uri intent.dst_name (moved_entry sys layout bucket intent) r f_dst
          (b, opens, models) fits inserts

    source_applied :
        (w w' : W)
        → Stands w src_uri f_src
        → apply_source sys layout bucket w intent ≡ (w', ok tt)
        → Stands w' src_uri without_name × Others src_uri w w'
    unfolding apply_source fs_open_dir
    source_applied w w' (b, opens, models) q =
        let (r, removes) =
          last_ok (remove_entry sys.tree sys.crc64 (sys.dirs src_uri) w intent.src_name) w'
            (rw opens at q) in
        taken_out w w' src_uri intent.src_name r f_src (b, opens, models) removes

    -- Where two directories stand for finite maps, whatever these bind, and the new name fits its
    -- field: when the forward steps of a rename intent between the two succeed, then the
    -- destination stands for its map with the new name bound to the moved entry, the source for
    -- its map without the old name, and every other directory is as before.
    pub apply_rename_intent-Moved :
        (w w' : W)
        → intent.src_parent ≢ intent.dst_parent
        → Stands w src_uri f_src
        → Stands w dst_uri f_dst
        → apply_rename_intent sys layout bucket w intent ≡ (w', ok tt)
        → Stands w' dst_uri with_name
          × Stands w' src_uri without_name
          × ((uri : Text)
              → uri ≢ src_uri
              → uri ≢ dst_uri
              → sys.open_dir w' uri ≡ sys.open_dir w uri)
    unfolding apply_rename_intent
    apply_rename_intent-Moved w w' apart (b, opens, models) dst_stands q =
        let (v, u, first, second) =
          chain_ok (apply_destination sys layout bucket w intent)
            (λ w _. apply_source sys layout bucket w intent) w' tt q in
        let differ : src_uri ≢ dst_uri = λ same.
          apart (dir_uri_injective layout bucket intent.src_parent intent.dst_parent same) in
        let ((b', opens', models'), others) = destination_applied w v dst_stands first in
        let (src_stands, others') =
          source_applied v w' (b, others src_uri differ ∙ opens, models) second in
        (
          (b', others' dst_uri (λ same. differ (sym same)) ∙ opens', models'),
          src_stands,
          λ uri not_src not_dst. others' uri not_src ∙ others uri not_dst,
        )
