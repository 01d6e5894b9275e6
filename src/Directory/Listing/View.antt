-- ===== src/Directory/Listing/View.antt =====
-- What a listing lays over what: the markers over the deletes, these over the pending entries, and
-- these over the tree.
use hyperdir.Base.{ℕ, ◌≡◌, ap, ◌∙◌, List, [], map, Text}
use hyperdir.Ondisk.{DirFileEntryRaw, DirFileEntry, name_bytes, from_raw}
use hyperdir.Probe.{BMap}
use hyperdir.Directory.{DirStaging, Dict, get}
use hyperdir.Base.{Option, none, any, if◌then◌else◌, ok, retain}
use hyperdir.Scatter.{DirScatterInode, filter_last_view}
use hyperdir.Directory.Changes.{ScatterChanges, is_upsert, is_delete, is_predelete}
use hyperdir.Directory.Listing.{Cursor, overlay, remove_all, walk_bmap, view_of}
use hyperdir.Directory.Listing.Events.{last_bound, entry_under, of_name}
use hyperdir.Directory.Listing.Dicts.{
  IsDict, over, hidden, get-overlay, overlay-IsDict, get-remove_all, remove_all-IsDict,
}

module _ {W B I : Type 0} (m : BMap B (DirFileEntryRaw I)) (cursor : Cursor B)
    (staging : DirStaging W B) (inode_of : Text → I) (lossy : Text → Text) where
  -- The tree's entries under their names; of two entries under one name the later counts.
  abbrev pub tree_view : List (DirFileEntryRaw I) → Dict (DirFileEntryRaw I)
  tree_view entries = overlay [] (map (λ e. (lossy (name_bytes e), e)) entries)

  -- Where the pending changes bind each name once, a listing has under every name: nothing, if a
  -- PreDelete or a Delete of the name is pending; or else the pending entry, if there is one; or else
  -- what the tree has.
  pub get-view_of :
      (entries : List (DirFileEntryRaw I)) (changes : ScatterChanges I) (name : Text)
      → IsDict changes.upserts
      → get name (view_of m cursor staging inode_of lossy entries changes)
        ≡ hidden (get name changes.predeletes) (
            hidden
              (get name changes.deletes)
              (over (get name changes.upserts) (get name (tree_view entries))))
  unfolding view_of
  get-view_of entries changes name h =
      let of_tree = overlay-IsDict [] (map (λ e. (lossy (name_bytes e), e)) entries) tt in
      let laid = overlay-IsDict (tree_view entries) changes.upserts of_tree in
      get-remove_all name changes.predeletes
        (remove_all (overlay (tree_view entries) changes.upserts) changes.deletes)
        (remove_all-IsDict (overlay (tree_view entries) changes.upserts) changes.deletes laid)
      ∙ ap (hidden (get name changes.predeletes)) (
          get-remove_all name changes.deletes (overlay (tree_view entries) changes.upserts) laid
          ∙ ap (hidden (get name changes.deletes))
              (get-overlay name changes.upserts (tree_view entries) h))

module _ {W B I : Type 0} (m : BMap B (DirFileEntryRaw I)) (cursor : Cursor B)
    (staging : DirStaging W B) (inode_of : Text → I) (lossy : Text → Text) where
  -- What a listing has under a name: nothing, if it is that of a PreDelete event that was fetched or
  -- of a Delete event; or else the entry of the last Create or Update event of the name that was
  -- fetched; or else the last entry of the name in the tree.
  abbrev pub shown :
      Text
      → List (DirFileEntryRaw I)
      → List (DirScatterInode × Text)
      → List DirScatterInode
      → List (DirScatterInode × Text)
      → Option (DirFileEntryRaw I)
  shown name entries fetched deleted fetched_pre =
      if any (λ p. of_name name p.0) fetched_pre
      then none
      else if any (of_name name) deleted
      then none
      else over (last_bound name (map (entry_under inode_of) fetched))
          (last_bound name (map (λ e. (lossy (name_bytes e), e)) entries))

module _ {W B I J : Type 0} (m : BMap B (DirFileEntryRaw I)) (cursor : Cursor B)
    (staging : DirStaging W B) (inode_of : Text → I) (lossy : Text → Text) (to_inode : I → J)
    (others : ℕ → W → W) where
  abbrev pub after_two : W → W
  after_two w = others 1 (others 0 w)

  -- The Delete events among the last events.
  abbrev pub last_deletes : List DirScatterInode → List DirScatterInode
  last_deletes scatters = retain is_delete (filter_last_view scatters)

  -- The reads of a listing, and the entries of a view, with what it has under a name.
  abbrev pub IsListing : W → List (DirFileEntry J) → Type 0
  IsListing w listed =
      (scatters : List DirScatterInode) × (fetched : List (DirScatterInode × Text))
      × (fetched_pre : List (DirScatterInode × Text)) × (b : B) × (entries : List
          (DirFileEntryRaw I))
      × (view : Dict (DirFileEntryRaw I)) × (staging.list_scatter_inodes w ≡ ok scatters)
      × (staging.collect_scatter_inodes (others 0 w) (retain is_upsert (filter_last_view scatters))
          ≡ ok fetched)
      × (staging.collect_scatter_inodes (after_two w)
            (retain is_predelete (filter_last_view scatters))
          ≡ ok fetched_pre)
      × (staging.load_bmap (others 2 (after_two w)) ≡ ok b)
      × (walk_bmap m cursor b ≡ ok entries)
      × (listed ≡ map (λ kv. from_raw to_inode kv.1) view)
      × ((name : Text)
          → get name view
            ≡ shown m cursor staging inode_of lossy name entries fetched (last_deletes scatters)
                fetched_pre)
