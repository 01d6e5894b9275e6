-- ===== src/Directory/Changes.antt =====
-- `collect_scatter_changes` of src/file.rs: what the pending scatter objects ask of the index.
-- `InodeRaw::from_u8_slice` is hyperfile's: a parameter `inode_of`.
use hyperdir.Base.{ℕ, Bool, true, false, List, [], ◌∷◌, map, retain, Text, Result, ok}
use hyperdir.Base.Int.{ℤ}
use hyperdir.Ondisk.{DirFileEntryRaw, from}
use hyperdir.Bodies.{parse_predelete_body}
use hyperdir.Scatter.{
  create, update, pre_delete, delete, unknown, DirScatterInode, filter_last_view,
}
use hyperdir.Directory.{DirStaging, ◌>>>=◌, Dict, insert}

pub record ScatterChanges (I : Type 0) : Type 0 where
  pub all_keys : List Text
  pub upserts : Dict (DirFileEntryRaw I)
  pub deletes : Dict Text
  pub predeletes : Dict (Text × Bool × ℤ)
  pub tombstone_keys : List Text

-- Which list of the loop over `last_view` an event goes to.
abbrev pub is_upsert : DirScatterInode → Bool
is_upsert s = elim s.op [
  | create ↦ true
  | update ↦ true
  | pre_delete ↦ false
  | delete ↦ false
  | unknown ↦ false
]

abbrev pub is_delete : DirScatterInode → Bool
is_delete s = elim s.op [
  | create ↦ false
  | update ↦ false
  | pre_delete ↦ false
  | delete ↦ true
  | unknown ↦ false
]

abbrev pub is_predelete : DirScatterInode → Bool
is_predelete s = elim s.op [
  | create ↦ false
  | update ↦ false
  | pre_delete ↦ true
  | delete ↦ false
  | unknown ↦ false
]

module _ {I : Type 0} (inode_of : Text → I) where
  -- The entry of a fetched Create or Update.
  unfoldable pub entry_of : DirScatterInode × Text → DirFileEntryRaw I
  entry_of (s, body) = from (inode_of body) s.uuid s.filename

  unfoldable pub upserts_of :
      Dict (DirFileEntryRaw I) → List (DirScatterInode × Text) → Dict (DirFileEntryRaw I)
  unfolding entry_of insert
  upserts_of d [] = d
  upserts_of d ((s, body) ∷ rest) = upserts_of (insert s.filename (entry_of (s, body)) d) rest

unfoldable pub deletes_of : Dict Text → List DirScatterInode → Dict Text
unfolding insert
deletes_of d [] = d
deletes_of d (s ∷ rest) = deletes_of (insert s.filename s.uuid d) rest

unfoldable pub predeletes_of :
    Dict (Text × Bool × ℤ) → List (DirScatterInode × Text) → Dict (Text × Bool × ℤ)
unfolding insert parse_predelete_body
predeletes_of d [] = d
predeletes_of d ((s, body) ∷ rest) =
    let (is_dir, retention) = parse_predelete_body body in
    predeletes_of (insert s.filename (s.uuid, is_dir, retention) d) rest

-- The state of the store after the reads, and the changes. `others n` is what other clients do to
-- the store after the read `n`.
unfoldable pub collect_scatter_changes :
    {W B I : Type 0} → DirStaging W B → (Text → I) → (ℕ → W → W) → W → W × Result (ScatterChanges I)
unfolding filter_last_view upserts_of deletes_of predeletes_of retain
collect_scatter_changes staging inode_of others w =
    (w, staging.list_scatter_inodes w) >>>= λ w scatters.
    let last_view = filter_last_view scatters in
    let w₁ = others 0 w in
    (w₁, staging.collect_scatter_inodes w₁ (retain is_upsert last_view)) >>>= λ w₁ fetched.
    let w₂ = others 1 w₁ in
    (w₂, staging.collect_scatter_inodes w₂ (retain is_predelete last_view)) >>>= λ w₂ fetched_pre. (
      w₂,
      ok (record {
        all_keys = map (λ s. s.key) scatters;
        upserts = upserts_of inode_of [] fetched;
        deletes = deletes_of [] (retain is_delete last_view);
        predeletes = predeletes_of [] fetched_pre;
        tombstone_keys = map (λ s. s.key) (retain is_delete last_view);
      }),
    )
