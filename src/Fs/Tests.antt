-- ===== src/Fs/Tests.antt =====
-- Deletes, links and attributes at concrete inputs.
use hyperdir.Base.{inl, inr, ◌≡◌, refl, true, false, none, some, [], arith, Text, codes}
use hyperdir.Base.Int.{pos, ltz}
use hyperdir.Layout.{new, dir_key, file_uri}
use hyperdir.Probe.Function.{function_map, same_home, alpha, alpha_entry, single}
use hyperdir.Bodies.{build_tombstone_body}
use hyperdir.Object.{absent}
use hyperdir.Staging.{path_encode}
use hyperdir.Scatter.{delete, as_u8, DirScatterInode}
use hyperdir.Gc.Collect.{skipped_retention, gc_one}
use hyperdir.Fs.Fixture.{kept_child, plain_fields, pending_alpha, one_object}
use hyperdir.Fs.Remove.{deadline}
use hyperdir.Base.{◌⊎◌}
use hyperdir.Object.Single.{Store, single_client, single_client-content, single_client-IsStore}
use hyperdir.Fs.Compaction.{child_uri_of, settle_one}
use hyperdir.Fs.Compaction.Behind.{Behind}
use hyperdir.Fs.Compaction.Addresses.{child_uri_of-dir_key}
use hyperdir.Fs.Compaction.Settled.{settle_one-retained}
use hyperdir.Fs.Link.{link_from}
use hyperdir.Fs.Link.Rollback.{Ended, link_from-Ended}

abbrev bucket : Text
bucket = codes "b"

child_uri_of-dir_key_example :
    child_uri_of bucket (dir_key new (codes "d")) false (codes "u")
    ≡ file_uri new bucket (codes "u")
child_uri_of-dir_key_example =
    child_uri_of-dir_key new bucket (codes "d") (codes "u") false (omega arith)

before_deadline : ltz (pos 1_400) (deadline (pos 1_000) (some 500)) ≡ true
unfolding deadline
before_deadline = refl

-- The second phase, and a store that keeps the tombstone.
abbrev settled : Text
settled = build_tombstone_body (pos 1_200) (deadline (pos 1_000) (some 500)) []

abbrev delete_alpha : DirScatterInode
delete_alpha = record {
  key = codes "k";
  op = delete;
  ulid = 1;
  uuid = codes "u";
  filename = alpha;
  last_modified = 10;
}

abbrev alpha_tombstone_key : Text
alpha_tombstone_key =
    path_encode one_object.scatter_base64 (codes "01H") (codes "DIR/d") alpha (codes "u")
      (as_u8 delete)

tombstone_put :
    single_client-IsStore.content
      (settle_one one_object bucket
        (codes "DIR/d")
        (λ n w. w)
        (λ n w. w)
        (λ n. pos 1_200)
        (λ n. codes "01H")
        0
        none
        alpha
        (codes "u")
        false
        (deadline (pos 1_000) (some 500)))
      alpha_tombstone_key
    ≡ some (settled, settled)
unfolding settle_one
tombstone_put = single_client-content (some settled) alpha_tombstone_key

put_whole :
    (w : Store) (key bytes : Text)
    → (single_client-IsStore.content (single_client.put_object w key bytes absent).0 key
        ≡ single_client-IsStore.content w key)
      ⊎ ((tag : Text) × (single_client-IsStore.content
              (single_client.put_object w key bytes absent).0
              key
            ≡ some (bytes, tag)))
put_whole none key bytes = inr (bytes, single_client-content _ key)
put_whole (some b) key bytes = inl refl

settle_one-retained_example :
    gc_one single_client kept_child plain_fields function_map same_home
      (pending_alpha (λ w. single) (λ w b. w))
      new
      bucket
      (pos 1_400)
      (some settled)
      delete_alpha
    ≡ (some settled, skipped_retention)
settle_one-retained_example =
    settle_one-retained one_object single_client-IsStore bucket (codes "DIR/d") (λ n w. w)
      (λ n w. w) (λ n. pos 1_200) (λ n. codes "01H") 0 none alpha (codes "u") false (pos 1_000)
      (some 500) (λ key bytes. put_whole none key bytes) (λ v uri raw state key. refl)
      (λ k v key. refl) (pending_alpha (λ w. single) (λ w b. w)) new bucket (pos 1_400)
      (omega arith) before_deadline (some settled) delete_alpha refl settled settled settled
      (single_client-content none alpha_tombstone_key) tombstone_put refl

link_from-Ended_example :
    Ended one_object
      (λ n w. w)
      (λ n w. w)
      (codes "f")
      (codes "d")
      alpha
      alpha_entry
      (link_from one_object
        (λ n w. w)
        (λ n w. w)
        (codes "f")
        (codes "d")
        alpha
        alpha_entry
        5
        0
        none)
link_from-Ended_example =
    link_from-Ended one_object (λ n w. w) (λ n w. w) (codes "f") (codes "d") alpha alpha_entry 5 0
      none
