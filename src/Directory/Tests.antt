-- ===== src/Directory/Tests.antt =====
-- The directory handle over a store that is one tree and a list of events.
use hyperdir.Base.{
  ℕ, ◌≡◌, refl, true, false, none, some, [], ◌∷◌, codes, ok, err, other, ◌⊎◌, text_eq,
}
use hyperdir.Ondisk.{DirFileEntryRaw, from}
use hyperdir.Probe.{named}
use hyperdir.Probe.Slots.{Models, update}
use hyperdir.Probe.Function.{
  Tree, function_map, function_map-IsMap, same_home, alpha, beta, alpha_entry, beta_entry, unbound,
  single, beta-named, same_home_small, single-Models,
}
use hyperdir.Scatter.{create, delete, DirScatterInode}
use hyperdir.Scatter.Latest.{latest}
use hyperdir.Directory.{DirStaging}
use hyperdir.Directory.Changes.{ScatterChanges}
use hyperdir.Directory.Compact.{fold_changes}
use hyperdir.Directory.Compact.Fold.{NoRoom, fold_changes-Models}
use hyperdir.Directory.Entries.{read_entry}
use hyperdir.Directory.Lookup.{entry_or_missing, read_entry-Models}
use hyperdir.Directory.Rename.{Renamed, Refused, rename_within-Models}
use hyperdir.Directory.Resolve.{resolve_fast}
use hyperdir.Directory.Resolve.Pending.{resolve_fast-latest}
use hyperdir.Directory.Exclusive
use hyperdir.Base.{suc, ◌+◌, ◌≤◌, ◌≢◌, leb, if◌then◌else◌, arith, Bool-cases, inl, inr, not_found}
use hyperdir.Probe.{u64_max, Answer, answer, value, absent}
use hyperdir.Directory.Listing.{Cursor, walk_from}
use hyperdir.Directory.Listing.Walked.{IsCursor, walk_from-enough}

alpha_beta : text_eq alpha beta ≡ false
unfolding text_eq
alpha_beta = refl

moved-named : named (from alpha_entry.inode alpha_entry.uuid beta) beta ≡ true
unfolding named from text_eq
moved-named = refl

alpha_bound : update unbound alpha (some alpha_entry) alpha ≡ some alpha_entry
unfolding text_eq
alpha_bound = refl

abbrev created : DirScatterInode
created = record {
  key = codes "k1";
  op = create;
  ulid = 1;
  uuid = [];
  filename = alpha;
  last_modified = 10;
}

abbrev deleted : DirScatterInode
deleted = record {
  key = codes "k2";
  op = delete;
  ulid = 2;
  uuid = [];
  filename = alpha;
  last_modified = 20;
}

-- The store is the persisted tree; both events of the name are pending.
abbrev pending : DirStaging (Tree (DirFileEntryRaw ℕ)) (Tree (DirFileEntryRaw ℕ))
pending = record {
  list_scatter_inodes = λ w. ok (created ∷ deleted ∷ []);
  list_scatter_inodes_for_name = λ w name. ok (created ∷ deleted ∷ []);
  collect_scatter_inodes = λ w ss. ok [];
  remove_scatter_inodes = λ w ks. (w, ok tt);
  acquire_compact_lease = λ w ttl. (w, err other);
  release_compact_lease = λ w g. (w, ok tt);
  load_bmap = λ w. ok w;
  flush = λ w b. (b, ok tt);
}

-- The name is deleted, and its entry is in the tree still.
resolve_fast-latest_example :
    resolve_fast function_map same_home pending (λ _. 0) (λ i. i) (λ n w. w) alpha single ≡ ok none
unfolding text_eq latest hyperdir.Scatter.Order.greatest hyperdir.Base.retain
    hyperdir.Scatter.before
resolve_fast-latest_example =
    resolve_fast-latest function_map same_home pending function_map-IsMap (λ _. 0) (λ i. i)
      (λ n w. w) alpha (same_home_small alpha) single single single
      (update unbound alpha (some alpha_entry)) (update unbound alpha (some alpha_entry)) refl
      single-Models refl single-Models (λ s. none) (λ s. refl) (created ∷ deleted ∷ []) refl
      (refl, (refl, tt))

abbrev changes : ScatterChanges ℕ
changes = record {
  all_keys = codes "k1" ∷ codes "k2" ∷ [];
  upserts = (beta, beta_entry) ∷ [];
  deletes = (alpha, []) ∷ [];
  predeletes = [];
  tombstone_keys = codes "k2" ∷ [];
}

fold_changes-Models_example :
    ((b' : Tree (DirFileEntryRaw ℕ)) × (fold_changes function_map same_home single changes
        ≡ ok (b', (alpha, []) ∷ [], []))
      × Models same_home b' (
          update
            (update (update unbound alpha (some alpha_entry)) beta (some beta_entry))
            alpha
            none))
    ⊎ ((fold_changes function_map same_home single changes ≡ err other)
        × NoRoom function_map same_home function_map-IsMap same_home_small single
            (update unbound alpha (some alpha_entry))
            changes.upserts)
unfolding text_eq
fold_changes-Models_example =
    fold_changes-Models function_map same_home function_map-IsMap same_home_small single
      (update unbound alpha (some alpha_entry)) changes single-Models (beta-named, tt)

rename_within-Models_example :
    Renamed function_map same_home pending function_map-IsMap same_home_small single single
      (update unbound alpha (some alpha_entry))
      single-Models
      alpha
      beta
      alpha_beta
      alpha_entry
      alpha_bound
      moved-named
    ⊎ Refused function_map same_home pending function_map-IsMap same_home_small single single
        (update unbound alpha (some alpha_entry))
        single-Models
        alpha
        beta
        alpha_beta
        alpha_entry
        alpha_bound
        moved-named
rename_within-Models_example =
    rename_within-Models function_map same_home pending function_map-IsMap same_home_small single
      single (update unbound alpha (some alpha_entry)) single-Models alpha beta alpha_beta
      alpha_entry alpha_bound moved-named

read_entry-Models_example :
    read_entry function_map same_home pending (λ i. i) single alpha
    ≡ entry_or_missing (λ i. i) (some alpha_entry)
unfolding text_eq
read_entry-Models_example =
    read_entry-Models function_map same_home pending function_map-IsMap (λ i. i) single single
      (update unbound alpha (some alpha_entry)) alpha (same_home_small alpha) refl single-Models

insert_entry_excl-Models_example :
    Exclusive.Inserted function_map same_home pending function_map-IsMap same_home_small single
      single refl
      (update unbound alpha (some alpha_entry))
      single-Models
      beta
      beta_entry
      beta-named
    ⊎ (Exclusive.Refused function_map same_home pending function_map-IsMap same_home_small single
          single refl
          (update unbound alpha (some alpha_entry))
          single-Models
          beta
          beta_entry
          beta-named
        ⊎ Exclusive.Full function_map same_home pending function_map-IsMap same_home_small single
            single refl
            (update unbound alpha (some alpha_entry))
            single-Models
            beta
            beta_entry
            beta-named)
insert_entry_excl-Models_example =
    Exclusive.insert_entry_excl-Models function_map same_home pending function_map-IsMap
      same_home_small single single refl (update unbound alpha (some alpha_entry)) single-Models
      beta beta_entry beta-named

-- A cursor over trees with one key.
abbrev at_five : Cursor (Tree (DirFileEntryRaw ℕ))
at_five = record { last_key = λ b. ok 5; seek_key = λ b n. if leb n 5 then ok 5 else err not_found }

at_five-IsCursor : IsCursor at_five
at_five-IsCursor = record { seeks = λ b n k found. seek n k found }
  where
    seek :
        (n k : ℕ)
        → answer (if leb n 5 then ok 5 else err not_found) ≡ value k
        → (n ≤ k) × (k ≤ u64_max)
    seek n k found = elim (Bool-cases (leb n 5)) [
      | inl low ↦ let is : 5 ≡ k = five k (rw low at found) in (ground arith, omega arith)
      | inr high ↦ absurd (none_found k (rw high at found))
    ]
      where
        five : (k : ℕ) → ◌≡◌ {A = Answer ℕ} (value 5) (value k) → 5 ≡ k
        five k e = cc

        none_found : (k : ℕ) → ◌≢◌ {A = Answer ℕ} absent (value k)
        none_found k e = cc

walk_from-enough_example :
    walk_from function_map at_five single (suc (7 + u64_max)) 5 0
    ≡ walk_from function_map at_five single (suc u64_max) 5 0
walk_from-enough_example = walk_from-enough function_map at_five at_five-IsCursor single 7 5
