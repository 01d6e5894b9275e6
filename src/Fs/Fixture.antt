-- ===== src/Fs/Fixture.antt =====
-- Systems for the tests: a store of one object with constant directories, and directories that are
-- functions from their URIs.
use hyperdir.Base.{
  ℕ, ◌≡◌, refl, sym, ap, ◌∙◌, none, some, [], ◌∷◌, map, if◌then◌else◌, Text, codes, text_eq,
  text_eq_refl, text_eq_iff, eq-false_of_ne, not_found, other, Result, ok, err,
}
use hyperdir.Base.Int.{pos}
use hyperdir.Ondisk.{DirFileEntryRaw}
use hyperdir.Probe.Function.{Tree, function_map, same_home, alpha, single}
use hyperdir.Scatter.{create, DirScatterInode}
use hyperdir.Object.{Client}
use hyperdir.Object.Single.{Store, single_client}
use hyperdir.Directory.{DirStaging}
use hyperdir.Directory.Listing.{Cursor}
use hyperdir.Gc.{ChildStaging, InodeFields}
use hyperdir.Fs.{System}
use hyperdir.Fs.Move.Applied.{IsDirs}

abbrev pub Dir : Type 0
Dir = Tree (DirFileEntryRaw ℕ)

-- An inode is its link count, and a regular file's.
abbrev pub plain_fields : InodeFields ℕ
plain_fields = record {
  i_nlink = λ r. r;
  set_nlink = λ r n. n;
  i_mode = λ r. 0;
  touch = λ r. r;
  from_u8_slice = λ b. 0;
}

-- A cursor of empty trees.
abbrev pub no_keys : Cursor Dir
no_keys = record { last_key = λ b. err not_found; seek_key = λ b n. err not_found }

abbrev pub created_alpha : DirScatterInode
created_alpha = record {
  key = codes "k";
  op = create;
  ulid = 1;
  uuid = codes "u";
  filename = alpha;
  last_modified = 10;
}

-- Every directory has one pending event, the creation of `u` as `alpha`.
abbrev pub pending_alpha : {W : Type 0} → (W → Dir) → (W → Dir → W) → DirStaging W Dir
pending_alpha load store = record {
  list_scatter_inodes = λ w. ok (created_alpha ∷ []);
  list_scatter_inodes_for_name = λ w name. ok (created_alpha ∷ []);
  collect_scatter_inodes = λ w ss. ok (map (λ s. (s, [])) ss);
  remove_scatter_inodes = λ w ks. (w, ok tt);
  acquire_compact_lease = λ w ttl. (w, err other);
  release_compact_lease = λ w g. (w, ok tt);
  load_bmap = λ w. ok (load w);
  flush = λ w b. (store w b, ok tt);
}

abbrev pub system :
    {W : Type 0}
    → Client W
    → ChildStaging W ℕ (Unit {0})
    → (W → Text → Result Dir)
    → (Text → DirStaging W Dir)
    → System W Dir ℕ (Unit {0})
system client child open_dir dirs = record {
  client = client;
  list_objects = λ w prefix. [];
  list_prefixes = λ w prefix. ok (codes "DIR/d/" ∷ []) ∷ [];
  child = child;
  fields = plain_fields;
  as_u8_slice = λ r. [];
  st_ctime = λ w uri. ok (pos 0);
  open_dir = open_dir;
  dirs = dirs;
  exclusive = dirs;
  tree = function_map;
  cursor = no_keys;
  crc64 = same_home;
  lossy = λ s. s;
  scatter_base64 = λ s. s;
  b64_encode = λ s. s;
  b64_decode = λ s. some s;
  b64url_encode = λ s. s;
  b64url_decode = λ s. some s;
  parse_uuid = λ s. some s;
  ulid_timestamp = λ s. none;
}

abbrev pub kept_child : {W : Type 0} → ChildStaging W ℕ (Unit {0})
kept_child = record {
  open_child = λ w u. ok tt;
  load_inode = λ w u. ok (1, tt);
  flush_inode = λ w u r s. (w, ok tt);
  unlink = λ w u. (w, ok tt);
}

-- One object, and directories that never change.
abbrev pub one_object : System Store Dir ℕ (Unit {0})
one_object =
    system single_client kept_child (λ w uri. ok single)
      (λ uri. pending_alpha (λ w. single) (λ w b. w))

-- The trees of all directories.
abbrev pub Dirs : Type 0
Dirs = Text → Dir

abbrev pub set_dir : Dirs → Text → Dir → Dirs
set_dir w uri b u = if text_eq u uri then b else w u

abbrev pub no_client : {W : Type 0} → Client W
no_client = record {
  get_object = λ w k. hyperdir.Object.no_such_key;
  put_object = λ w k b c. (w, hyperdir.Object.put_failed);
  delete_object = λ w k c. (w, hyperdir.Object.delete_failed);
}

-- Every object holds this body.
abbrev pub holding : {W : Type 0} → Text → Client W
holding bytes = record {
  get_object = λ w k. hyperdir.Object.body bytes [];
  put_object = λ w k b c. (w, hyperdir.Object.refused);
  delete_object = λ w k c. (w, hyperdir.Object.removed);
}

abbrev pub many_dirs : Client Dirs → System Dirs Dir ℕ (Unit {0})
many_dirs client =
    system client kept_child (λ w uri. ok (w uri))
      (λ uri. pending_alpha (λ w. w uri) (λ w b. set_dir w uri b))

pub many_dirs-IsDirs : (client : Client Dirs) → IsDirs (many_dirs client)
many_dirs-IsDirs client = record {
  load_opens = λ w uri. refl;
  flush_leaves = λ w w' uri b flushes. (
    ap (λ v. ok (v uri)) (sym (state w w' uri b flushes))
        ∙ ap (λ t. ok (if t then b else w uri)) (text_eq_refl uri),
    λ other_uri apart.
        ap (λ v. ok (v other_uri)) (sym (state w w' uri b flushes))
        ∙ ap (λ t. ok (if t then b else w other_uri))
            (eq-false_of_ne _ λ same. apart ((text_eq_iff other_uri uri).0 same)),
  );
}
  where
    state :
        (w w' : Dirs) (uri : Text) (b : Dir)
        → ◌≡◌ {A = Dirs × Result (Unit {0})} (set_dir w uri b, ok tt) (w', ok tt)
        → set_dir w uri b ≡ w'
    state w w' uri b q = cc
