-- ===== src/Staging/Keys.antt =====
-- The keys of scatter objects are read back (`path_decode` of src/lib.rs). `none` is a panic of its
-- assertions and its `expect`s. `decode` is the base64 crate's engine with the alphabet of the
-- source, `parse_ulid` is `Ulid::from_string`, `parse_uuid` is `Uuid::parse_str`.
use hyperdir.Base.{ℕ, ◌==◌, Option, none, some, List, [], ◌∷◌, if◌then◌else◌, Text, codes, text_eq}
use hyperdir.Ondisk.Utf8.{is_utf8}
use hyperdir.Wire.{split, parse_uint}
use hyperdir.Scatter.{from_u8, DirScatterInode}

-- `str::trim_start_matches` of one byte.
unfoldable pub trim_start_matches : ℕ → Text → Text
trim_start_matches c [] = []
trim_start_matches c (b ∷ bs) =
    let rest = trim_start_matches c bs in if b == c then rest else b ∷ bs

abbrev pub with_head : ℕ → Option Text → Option Text
with_head c none = none
with_head c (some s) = some (c ∷ s)

-- `str::strip_suffix`, of a suffix that is not empty.
unfoldable pub strip_suffix : Text → Text → Option Text
unfolding text_eq
strip_suffix suffix [] = none
strip_suffix suffix (c ∷ cs) =
    let rest = with_head c (strip_suffix suffix cs) in
    if text_eq (c ∷ cs) suffix then some [] else rest

-- `or_else`
abbrev pub or_else : {A : Type 0} → Option A → Option A → Option A
or_else none o = o
or_else (some a) o = some a

abbrev pub then_some : {A C : Type 0} → Option A → (A → Option C) → Option C
then_some none f = none
then_some (some a) f = f a

abbrev pub in_front : ℕ → Option (Text × Text) → Option (Text × Text)
in_front b none = none
in_front b (some (s, t)) = some (b ∷ s, t)

-- `str::split_once` at one byte.
unfoldable pub split_once : ℕ → Text → Option (Text × Text)
split_once c [] = none
split_once c (b ∷ bs) =
    let rest = in_front b (split_once c bs) in if b == c then some ([], bs) else rest

-- The two components around `!`.
unfoldable pub second_of_two : List Text → Option Text
second_of_two [] = none
second_of_two (a ∷ []) = none
second_of_two (a ∷ b ∷ []) = some b
second_of_two (a ∷ b ∷ c ∷ rest) = none

unfoldable pub stem_of : Text → Option Text
unfolding strip_suffix trim_start_matches
stem_of component =
    or_else (strip_suffix (codes ".inode") (trim_start_matches 47 component))
      (strip_suffix (codes ".tombstone") (trim_start_matches 47 component))

module _ (decode : Text → Option Text) (parse_ulid : Text → Option ℕ)
    (parse_uuid : Text → Option Text) where
  -- The parts `ulid`, `uuid` and `op`, after the name in base64.
  unfoldable pub decode_parts : Text → ℕ → Text → List Text → Option DirScatterInode
  unfolding is_utf8 parse_uint from_u8
  decode_parts key last_modified b64name (ulid_text ∷ uuid_text ∷ op_text ∷ rest) =
      then_some (parse_ulid ulid_text) λ ulid. then_some (decode b64name) λ filename.
        then_some (if is_utf8 filename then some filename else none) λ filename.
          then_some (parse_uuid uuid_text) λ uuid. then_some (parse_uint 255 op_text) λ op_u8.
            some (record {
              key = key;
              op = from_u8 op_u8;
              ulid = ulid;
              uuid = uuid;
              filename = filename;
              last_modified = last_modified;
            })
  decode_parts key last_modified b64name _ = none

  unfoldable pub path_decode : Text → ℕ → Option DirScatterInode
  unfolding decode_parts split_once stem_of second_of_two split
  path_decode scatter_inode last_modified =
      then_some (second_of_two (split 33 scatter_inode)) λ component.
        then_some (stem_of component) λ stem.
          then_some (split_once 47 stem)
            λ halves. decode_parts scatter_inode last_modified halves.0 (split 95 halves.1)
