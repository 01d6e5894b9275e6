-- ===== src/Fs/Recover.antt =====
-- The recovery of interrupted renames (`fs_recover_renames`, `fs_emit_reclaim_intent`,
-- `fs_delete_intent` and `reclaim_intent_stale` of src/fs.rs). The pages of the listing are those of
-- the state in which it starts, and no other client acts.
pub mod Completed
use hyperdir.Base.{
  ℕ, ◌+◌, ◌-◌, Bool, true, false, ◌&&◌, Option, none, some, List, [], ◌∷◌, ◌==◌, any, length, drop,
  if◌then◌else◌, Text, codes, text_eq, other, Result, ok, err,
}
use hyperdir.Base.Int.{ℤ, pos, ltz}
use hyperdir.Layout.{HyperDirLayout, dir_uri, reclaim_key, txn_prefix}
use hyperdir.Object.{absent}
use hyperdir.Directory.{◌>>>=◌}
use hyperdir.Directory.Listing.{read_dir}
use hyperdir.Gc.Collect.{object_bytes}
use hyperdir.Fs.{System, delete_object, fs_open_dir}
use hyperdir.Fs.Remove.{fs_reclaim}
use hyperdir.Fs.Attributes.{put_done}
use hyperdir.Fs.Intent.{RenameIntent, ReclaimIntent, parse, parse_reclaim, serialize_reclaim}
use hyperdir.Fs.Move.{apply_rename_intent}

unfoldable pub ends_with : Text → Text → Bool
unfolding text_eq
ends_with suffix s = text_eq (drop (length s - length suffix) s) suffix

-- The text after the last slash, or all of it.
unfoldable pub after_slash : Text → Text → Text
after_slash whole [] = whole
after_slash whole (c ∷ cs) = if c == 47 then after_slash cs cs else after_slash whole cs

-- `strip_suffix`, or the text as it is.
unfoldable pub without_suffix : Text → Text → Text
unfolding ends_with
without_suffix suffix [] = []
without_suffix suffix (c ∷ cs) =
    let rest = without_suffix suffix cs in if text_eq (c ∷ cs) suffix then [] else c ∷ rest

abbrev pub stale_ms : ℕ
stale_ms = 60_000

-- `now - timestamp > STALE_MS`; a key that holds no ULID is stale.
abbrev pub older : ℤ → Option ℕ → Bool
older now_ms none = true
older now_ms (some ms) = ltz (pos (ms + stale_ms)) now_ms

unfoldable pub reclaim_intent_stale : (Text → Option ℕ) → ℤ → Text → Bool
unfolding after_slash without_suffix
reclaim_intent_stale ulid_timestamp now_ms key =
    older now_ms (ulid_timestamp (without_suffix (codes ".reclaim") (after_slash key key)))

module _ {W B R S : Type 0} (sys : System W B R S) (layout : HyperDirLayout) (bucket : Text) where
  -- With `ulid` as the fresh ULID's text.
  unfoldable pub fs_emit_reclaim_intent : Text → W → ReclaimIntent → W × Result Text
  unfolding reclaim_key serialize_reclaim put_done
  fs_emit_reclaim_intent ulid w intent =
      put_done (
        sys.client.put_object w (reclaim_key layout ulid) (serialize_reclaim sys.b64_encode intent)
          absent)
      >>>= λ w _. (w, ok (reclaim_key layout ulid))

  unfoldable pub fs_delete_intent : W → Text → W × Result (Unit {0})
  unfolding delete_object
  fs_delete_intent w key = delete_object sys w key

  -- An intent that does not parse is passed over.
  unfoldable pub recover_rename : W → Text → Result RenameIntent → W × Result ℕ
  unfolding apply_rename_intent delete_object
  recover_rename w key (err _) = (w, ok 0)
  recover_rename w key (ok intent) = apply_rename_intent sys layout bucket w intent >>>= λ w _.
      delete_object sys w key >>>= λ w _. (w, ok 1)

  -- Is the displaced child still named so? What cannot be read says no.
  unfoldable pub still_named : W → ReclaimIntent → W × Result Bool
  unfolding fs_open_dir read_dir any text_eq dir_uri
  still_named w intent = answered (
      (w, fs_open_dir sys layout bucket w intent.dst_parent) >>>= λ w _.
      read_dir sys.tree sys.cursor (sys.dirs (dir_uri layout bucket intent.dst_parent))
        sys.fields.from_u8_slice sys.lossy (λ i. i) (λ n w. w) w
      >>>= λ w entries. (
        w,
        ok (any (λ e. text_eq e.name intent.dst_name && text_eq e.uuid intent.displaced) entries),
      ))
    where
      answered : W × Result Bool → W × Result Bool
      answered (w, ok b) = (w, ok b)
      answered (w, err _) = (w, ok false)

  -- What is done with a reclaim intent that parses.
  unfoldable pub recover_displaced : ℤ → Text → ReclaimIntent → W × Result Bool → W × Result ℕ
  unfolding reclaim_intent_stale fs_reclaim delete_object
  recover_displaced now_ms key intent (w, err e) = (w, err e)
  recover_displaced now_ms key intent (w, ok true) =
      if reclaim_intent_stale sys.ulid_timestamp now_ms key
      then (delete_object sys w key >>>= λ w _. (w, ok 0))
      else (w, ok 0)
  recover_displaced now_ms key intent (w, ok false) =
      fs_reclaim sys layout bucket w intent.displaced intent.displaced_is_dir >>>= λ w _.
      delete_object sys w key >>>= λ w _. (w, ok 1)

  unfoldable pub recover_reclaim : ℤ → W → Text → Result ReclaimIntent → W × Result ℕ
  unfolding recover_displaced still_named
  recover_reclaim now_ms w key (err _) = (w, ok 0)
  recover_reclaim now_ms w key (ok intent) =
      recover_displaced now_ms key intent (still_named w intent)

  -- One object under the prefix; `get_object_raw` reads as `get_object_bytes` does.
  unfoldable pub recover_key : ℤ → W → Text → W × Result ℕ
  unfolding ends_with recover_rename recover_reclaim object_bytes parse parse_reclaim
  recover_key now_ms w key =
      let body = object_bytes (sys.client.get_object w key) in
      if ends_with (codes ".intent") key
      then ((w, body) >>>= λ w bytes.
          recover_rename w key (parse sys.b64_decode sys.parse_uuid bytes))
      else if ends_with (codes ".reclaim") key
      then ((w, body) >>>= λ w bytes.
          recover_reclaim now_ms w key (parse_reclaim sys.b64_decode sys.parse_uuid bytes))
      else (w, ok 0)

  unfoldable pub recover_keys : ℤ → W → ℕ → List Text → W × Result ℕ
  unfolding recover_key
  recover_keys now_ms w recovered [] = (w, ok recovered)
  recover_keys now_ms w recovered (key ∷ keys) =
      recover_key now_ms w key >>>= λ w k. recover_keys now_ms w (recovered + k) keys

  unfoldable pub recover_pages : ℤ → W → ℕ → List (Result (List Text)) → W × Result ℕ
  unfolding recover_keys
  recover_pages now_ms w recovered [] = (w, ok recovered)
  recover_pages now_ms w recovered (err _ ∷ pages) = (w, err other)
  recover_pages now_ms w recovered (ok keys ∷ pages) =
      recover_keys now_ms w recovered keys >>>= λ w recovered'.
      recover_pages now_ms w recovered' pages

  unfoldable pub fs_recover_renames : ℤ → W → W × Result ℕ
  unfolding recover_pages txn_prefix
  fs_recover_renames now_ms w = recover_pages now_ms w 0 (sys.list_objects w (txn_prefix layout))
