-- ===== src/Fs/Compaction.antt =====
-- The second phase of a delete: `fs_compact` of src/fs.rs, after the fold has decided which names
-- went. `others n` acts before the child `n` is looked at, and `races` on the count's own loop.
pub mod Addresses
pub mod Settled
pub mod Behind
use hyperdir.Base.{
  ℕ, zero, suc, ◌+◌, Bool, true, false, ◌&&◌, Option, none, some, List, [], ◌∷◌, ◌++◌,
  if◌then◌else◌, Text, codes, Result, ok, err,
}
use hyperdir.Base.Int.{ℤ, negsuc}
use hyperdir.Wire.{strip_prefix}
use hyperdir.Bodies.{build_tombstone_body}
use hyperdir.Scatter.{delete}
use hyperdir.Directory.{◌>>>=◌, Dict}
use hyperdir.Directory.Compact.{CompactStats, is_empty, compact}
use hyperdir.Staging.{emit_scatter_event}
use hyperdir.Gc.{adjust_nlink}
use hyperdir.Fs.{System}

abbrev pub found : Option Text → Bool
found none = false
found (some _) = true

-- One more byte before the last match, or a match here.
abbrev pub before_match : ℕ → Bool → Option Text → Option Text
before_match c here (some s) = some (c ∷ s)
before_match c true none = some []
before_match c false none = none

-- The text before the last place where `p` begins (`rfind`).
unfoldable pub before_last : Text → Text → Option Text
unfolding strip_prefix
before_last p [] = none
before_last p (c ∷ s) = before_match c (found (strip_prefix p (c ∷ s))) (before_last p s)

abbrev pub or_empty : Option Text → Text
or_empty none = []
or_empty (some s) = s

-- `&rp[..rp.rfind("DIR/").unwrap_or(0)]`
unfoldable pub base_of : Text → Text
unfolding before_last
base_of root_path = or_empty (before_last (codes "DIR/") root_path)

-- `s3://{bucket}/{base}DIR/{uuid}`, or with `FILE/`.
unfoldable pub child_uri_of : Text → Text → Bool → Text → Text
unfolding base_of
child_uri_of bucket root_path is_dir uuid =
    codes "s3://"
    ++ bucket
    ++ codes "/"
    ++ (base_of root_path ++ ((if is_dir then codes "DIR" else codes "FILE") ++ codes "/" ++ uuid))

module _ {W B R S : Type 0} (sys : System W B R S) (bucket root_path : Text)
    (others races : ℕ → W → W) (clock : ℕ → ℤ) (ulids : ℕ → Text) where
  -- One link fewer; a failure is only logged.
  unfoldable pub drop_link : W → Text → W
  unfolding adjust_nlink
  drop_link w child_uri = (adjust_nlink sys.child sys.fields child_uri races (negsuc 0) w).0

  -- The loop over `stats.removed_children`.
  unfoldable pub settle_removed : W → List Text → W
  unfolding drop_link child_uri_of
  settle_removed w [] = w
  settle_removed w (uuid ∷ rest) =
      settle_removed (drop_link w (child_uri_of bucket root_path false uuid)) rest

  -- After the tombstone is emitted.
  unfoldable pub settle_emitted : Text → Bool → W × Result (Unit {0}) → W
  unfolding drop_link
  settle_emitted child_uri is_dir (w, ok _) = if is_dir then w else drop_link w child_uri
  settle_emitted child_uri is_dir (w, err _) = w

  -- After the child's inode is loaded.
  unfoldable pub settle_loaded : ℕ → W → Text → Text → Bool → ℤ → Text → Result (R × S) → W
  unfolding settle_emitted build_tombstone_body emit_scatter_event
  settle_loaded n w name uuid is_dir retention_until child_uri (err _) = w
  settle_loaded n w name uuid is_dir retention_until child_uri (ok (raw, _)) =
      settle_emitted child_uri is_dir (
        emit_scatter_event sys.client sys.scatter_base64 (ulids n) root_path w name uuid
          (build_tombstone_body (clock n) retention_until (sys.as_u8_slice raw)) delete)

  -- After the child's staging is opened.
  unfoldable pub settle_opened : ℕ → W → Text → Text → Bool → ℤ → Text → Result (Unit {0}) → W
  unfolding settle_loaded
  settle_opened n w name uuid is_dir retention_until child_uri (err _) = w
  settle_opened n w name uuid is_dir retention_until child_uri (ok _) =
      settle_loaded n w name uuid is_dir retention_until child_uri
        (sys.child.load_inode w child_uri)

  -- One binding of `stats.predeleted`.
  unfoldable pub settle_one : ℕ → W → Text → Text → Bool → ℤ → W
  unfolding settle_opened child_uri_of
  settle_one n w name uuid is_dir retention_until =
      let child_uri = child_uri_of bucket root_path is_dir uuid in
      settle_opened n w name uuid is_dir retention_until child_uri
        (sys.child.open_child w child_uri)

  unfoldable pub settle_predeleted : ℕ → W → Dict (Text × Bool × ℤ) → W
  unfolding settle_one
  settle_predeleted n w [] = w
  settle_predeleted n w ((name, (uuid, is_dir, retention_until)) ∷ rest) =
      settle_predeleted (suc n) (settle_one n (others n w) name uuid is_dir retention_until) rest

  -- On the directory at `root_path`, whose URI is `uri`; `acts` is what other clients do during
  -- the fold.
  unfoldable pub fs_compact : (ℕ → W → W) → Text → W → W × Result (B × CompactStats)
  unfolding compact settle_removed settle_predeleted
  fs_compact acts uri w =
      compact sys.tree sys.crc64 (sys.dirs uri) sys.fields.from_u8_slice acts w >>>= λ w done.
      let stats = done.1 in
      (settle_predeleted 0 (settle_removed w stats.removed_children) stats.predeleted, ok done)
