-- ===== src/Gc/Tests.antt =====
-- The collector at a tombstone whose retention has not passed, and a link count of two.
use hyperdir.Base.{ℕ, ◌≡◌, refl, none, [], ◌∷◌, codes, ok, err, other, ◌⊎◌}
use hyperdir.Base.Int.{pos}
use hyperdir.Layout.{new}
use hyperdir.Ondisk.{DirFileEntryRaw}
use hyperdir.Bodies.{build_tombstone_body}
use hyperdir.Scatter.{delete, DirScatterInode}
use hyperdir.Probe.Function.{Tree, function_map, same_home, alpha}
use hyperdir.Object.{Client, body, stored, removed}
use hyperdir.Directory.{DirStaging}
use hyperdir.Gc.{ChildStaging, InodeFields}
use hyperdir.Gc.Collect.{gc_one}
use hyperdir.Gc.Retention.{Due, gc_one-Due}
use hyperdir.Base.Int.{negsuc}
use hyperdir.Gc.{adjust_nlink, adjust_from, new_count}
use hyperdir.Gc.Counted.{Adjusted, adjust_nlink-Adjusted}

abbrev Store : Type 0
Store = Tree (DirFileEntryRaw ℕ)

abbrev tombstone : DirScatterInode
tombstone = record {
  key = codes "k";
  op = delete;
  ulid = 1;
  uuid = codes "u";
  filename = alpha;
  last_modified = 10;
}

-- Every object is a tombstone to keep until 9000, and every inode has two links.
abbrev client : Client Store
client = record {
  get_object = λ w k. body (build_tombstone_body (pos 1) (pos 9_000) []) [];
  put_object = λ w k b c. (w, stored []);
  delete_object = λ w k c. (w, removed);
}

abbrev linked : ChildStaging Store ℕ (Unit {0})
linked = record {
  open_child = λ w u. ok tt;
  load_inode = λ w u. ok (2, tt);
  flush_inode = λ w u r s. (w, ok tt);
  unlink = λ w u. (w, ok tt);
}

abbrev fields : InodeFields ℕ
fields = record {
  i_nlink = λ r. r;
  set_nlink = λ r n. n;
  i_mode = λ r. 0;
  touch = λ r. r;
  from_u8_slice = λ b. 0;
}

abbrev staging : DirStaging Store Store
staging = record {
  list_scatter_inodes = λ w. ok (tombstone ∷ []);
  list_scatter_inodes_for_name = λ w name. ok (tombstone ∷ []);
  collect_scatter_inodes = λ w ss. ok [];
  remove_scatter_inodes = λ w ks. (w, ok tt);
  acquire_compact_lease = λ w ttl. (w, err other);
  release_compact_lease = λ w g. (w, ok tt);
  load_bmap = λ w. ok w;
  flush = λ w b. (b, ok tt);
}

abbrev empty : Store
empty _ = none

gc_one-Due_example :
    ((gc_one client linked fields function_map same_home staging new
        (codes "b")
        (pos 100)
        empty
        tombstone).0
      ≡ empty)
    ⊎ Due client linked fields function_map same_home staging new
        (codes "b")
        (pos 100)
        empty
        tombstone
gc_one-Due_example =
    gc_one-Due client linked fields function_map same_home staging new (codes "b") (pos 100) empty
      tombstone

one_link_fewer : adjust_nlink linked fields (codes "f") (λ n w. w) (negsuc 0) empty ≡ (empty, ok 1)
unfolding adjust_nlink adjust_from new_count
one_link_fewer = refl

adjust_nlink-Adjusted_example : Adjusted linked fields (codes "f") (λ n w. w) (negsuc 0) empty 1
adjust_nlink-Adjusted_example =
    adjust_nlink-Adjusted linked fields (codes "f") (λ n w. w) (negsuc 0) empty empty 1
      one_link_fewer
