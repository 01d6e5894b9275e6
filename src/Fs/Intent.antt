-- ===== src/Fs/Intent.antt =====
-- The bodies of the intents of a rename (`RenameIntent` and `ReclaimIntent` of src/fs.rs): a line for
-- each field, names and inodes in base64. `decode` is the `STANDARD` engine's, `parse_uuid` is
-- `Uuid::parse_str`; the engine and the uuid are crates': parameters.
pub mod RoundTrip
pub mod Reclaim
use hyperdir.Base.{
  ℕ, Bool, true, false, Option, none, some, List, [], ◌∷◌, ◌++◌, if◌then◌else◌, Text, codes,
  text_eq, invalid_data, Result, ok, err, ◌>>=◌,
}
use hyperdir.Ondisk.Utf8.{is_utf8}
use hyperdir.Wire.{newline, lines, strip_prefix}

pub record RenameIntent : Type 0 where
  pub src_parent : Text
  pub src_name : Text
  pub dst_parent : Text
  pub dst_name : Text
  pub child : Text
  pub inode : Text

pub record ReclaimIntent : Type 0 where
  pub dst_parent : Text
  pub dst_name : Text
  pub displaced : Text
  pub displaced_is_dir : Bool

-- The line of a field, before `rest`.
abbrev pub line_of : Text → Text → Text → Text
line_of tag value rest = (tag ++ value) ++ (newline ∷ rest)

unfoldable pub serialize : (Text → Text) → RenameIntent → Text
serialize encode intent = line_of (codes "src_parent=") intent.src_parent (
    line_of (codes "src_name=") (encode intent.src_name) (
      line_of (codes "dst_parent=") intent.dst_parent (
        line_of (codes "dst_name=") (encode intent.dst_name) (
          line_of (codes "child=") intent.child
            (line_of (codes "inode=") (encode intent.inode) [])))))

unfoldable pub serialize_reclaim : (Text → Text) → ReclaimIntent → Text
serialize_reclaim encode intent = line_of (codes "dst_parent=") intent.dst_parent (
    line_of (codes "dst_name=") (encode intent.dst_name) (
      line_of (codes "displaced=") intent.displaced
        (line_of (codes "is_dir=") (if intent.displaced_is_dir then codes "1" else codes "0") [])))

-- A value, or `InvalidData`.
abbrev pub required : {A : Type 0} → Option A → Result A
required none = err invalid_data
required (some a) = ok a

-- `if let Some(v) = line.strip_prefix(..) { .. } else { .. }`
abbrev pub if_prefix : {A : Type 0} → Option Text → (Text → A) → A → A
if_prefix none taken otherwise = otherwise
if_prefix (some v) taken otherwise = taken v

-- The fields that were read so far.
pub record RenameFields : Type 0 where
  pub src_parent : Option Text
  pub src_name : Option Text
  pub dst_parent : Option Text
  pub dst_name : Option Text
  pub child : Option Text
  pub inode : Option Text

pub record ReclaimFields : Type 0 where
  pub dst_parent : Option Text
  pub dst_name : Option Text
  pub displaced : Option Text
  pub is_dir : Bool

module _ (decode parse_uuid : Text → Option Text) where
  -- A name: base64 of UTF-8.
  unfoldable pub decode_name : Text → Result Text
  unfolding is_utf8
  decode_name v = do
    bytes ← required (decode v)
    if is_utf8 bytes then ok bytes else err invalid_data

  unfoldable pub read_rename_line : RenameFields → Text → Result RenameFields
  unfolding strip_prefix decode_name
  read_rename_line f line =
      if_prefix (strip_prefix (codes "src_parent=") line)
        (λ v. do u ← required (parse_uuid v); ok (record f { src_parent = some u }))
        (if_prefix (strip_prefix (codes "src_name=") line)
          (λ v. do name ← decode_name v; ok (record f { src_name = some name }))
          (if_prefix (strip_prefix (codes "dst_parent=") line)
            (λ v. do u ← required (parse_uuid v); ok (record f { dst_parent = some u }))
            (if_prefix (strip_prefix (codes "dst_name=") line)
              (λ v. do name ← decode_name v; ok (record f { dst_name = some name }))
              (if_prefix (strip_prefix (codes "child=") line)
                (λ v. do u ← required (parse_uuid v); ok (record f { child = some u }))
                (if_prefix (strip_prefix (codes "inode=") line)
                  (λ v. do bytes ← required (decode v); ok (record f { inode = some bytes }))
                  (ok f))))))

  unfoldable pub read_rename_lines : RenameFields → List Text → Result RenameFields
  unfolding read_rename_line
  read_rename_lines f [] = ok f
  read_rename_lines f (line ∷ rest) = do f' ← read_rename_line f line; read_rename_lines f' rest

  abbrev pub complete_rename : RenameFields → Result RenameIntent
  complete_rename f = do
    src_parent ← required f.src_parent
    src_name ← required f.src_name
    dst_parent ← required f.dst_parent
    dst_name ← required f.dst_name
    child ← required f.child
    inode ← required f.inode
    ok (record {
      src_parent = src_parent;
      src_name = src_name;
      dst_parent = dst_parent;
      dst_name = dst_name;
      child = child;
      inode = inode;
    })

  unfoldable pub parse : Text → Result RenameIntent
  unfolding read_rename_lines lines is_utf8
  parse buf =
      if is_utf8 buf
      then (do
        f ←
            read_rename_lines
              (record {
                src_parent = none;
                src_name = none;
                dst_parent = none;
                dst_name = none;
                child = none;
                inode = none;
              })
              (lines buf)
        complete_rename f)
      else err invalid_data

  unfoldable pub read_reclaim_line : ReclaimFields → Text → Result ReclaimFields
  unfolding strip_prefix decode_name text_eq
  read_reclaim_line f line =
      if_prefix (strip_prefix (codes "dst_parent=") line)
        (λ v. do u ← required (parse_uuid v); ok (record f { dst_parent = some u }))
        (if_prefix (strip_prefix (codes "dst_name=") line)
          (λ v. do name ← decode_name v; ok (record f { dst_name = some name }))
          (if_prefix (strip_prefix (codes "displaced=") line)
            (λ v. do u ← required (parse_uuid v); ok (record f { displaced = some u }))
            (if_prefix (strip_prefix (codes "is_dir=") line)
              (λ v. ok (record f { is_dir = text_eq v (codes "1") })) (ok f))))

  unfoldable pub read_reclaim_lines : ReclaimFields → List Text → Result ReclaimFields
  unfolding read_reclaim_line
  read_reclaim_lines f [] = ok f
  read_reclaim_lines f (line ∷ rest) = do f' ← read_reclaim_line f line; read_reclaim_lines f' rest

  abbrev pub complete_reclaim : ReclaimFields → Result ReclaimIntent
  complete_reclaim f = do
    dst_parent ← required f.dst_parent
    dst_name ← required f.dst_name
    displaced ← required f.displaced
    ok (record {
      dst_parent = dst_parent;
      dst_name = dst_name;
      displaced = displaced;
      displaced_is_dir = f.is_dir;
    })

  unfoldable pub parse_reclaim : Text → Result ReclaimIntent
  unfolding read_reclaim_lines lines is_utf8
  parse_reclaim buf =
      if is_utf8 buf
      then (do
        f ←
            read_reclaim_lines
              (record { dst_parent = none; dst_name = none; displaced = none; is_dir = false })
              (lines buf)
        complete_reclaim f)
      else err invalid_data
