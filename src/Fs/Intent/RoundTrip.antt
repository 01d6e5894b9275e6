-- ===== src/Fs/Intent/RoundTrip.antt =====
-- Intents are read back from their bodies.
use hyperdir.Base.{
  ◌<◌, ◌≡◌, refl, ap, ◌∙◌, true, Option, none, some, List, [], ◌∷◌, ◌++◌, arith, All, Text, codes,
  ok,
}
use hyperdir.Ondisk.Utf8.{is_utf8}
use hyperdir.Wire.{lines, strip_prefix}
use hyperdir.Wire.Lines.{
  IsLineByte, IsFieldByte, lines-append, is_utf8_ascii, All-line, ascii_append, field_append,
}
use hyperdir.Fs.Intent.{
  RenameIntent, line_of, serialize, decode_name, read_rename_line, read_rename_lines, parse,
}

-- A field of a body: printable ASCII.
line-IsLineByte :
    (tag value : Text) → All IsFieldByte tag → All IsFieldByte value → All IsLineByte (tag ++ value)
line-IsLineByte tag value t v = All-line (tag ++ value) (field_append tag value t v)

pub lines-line_of :
    (tag value rest : Text)
    → All IsFieldByte tag
    → All IsFieldByte value
    → lines (line_of tag value rest) ≡ (tag ++ value) ∷ lines rest
lines-line_of tag value rest t v = lines-append (tag ++ value) rest (line-IsLineByte tag value t v)

pub ascii-line_of :
    (tag value rest : Text)
    → All IsFieldByte tag
    → All IsFieldByte value
    → All (λ c. c < 128) rest
    → All (λ c. c < 128) (line_of tag value rest)
ascii-line_of tag value rest t v r =
    ascii_append (tag ++ value) _ (line-IsLineByte tag value t v) (omega arith, r)

pub lines-nil : lines [] ≡ []
unfolding lines
lines-nil = refl

module _ (encode : Text → Text) (decode parse_uuid : Text → Option Text) where
  -- What the crates document: base64 is printable ASCII and is decoded to what was encoded; a uuid's
  -- text is printable ASCII and is parsed to itself.
  abbrev pub IsEncoded : Text → Type 0
  IsEncoded bytes = All IsFieldByte (encode bytes) × (decode (encode bytes) ≡ some bytes)

  abbrev pub IsUuid : Text → Type 0
  IsUuid u = All IsFieldByte u × (parse_uuid u ≡ some u)

  pub decode_name-encode :
      (name : Text)
      → IsEncoded name
      → is_utf8 name ≡ true
      → decode_name decode parse_uuid (encode name) ≡ ok name
  unfolding decode_name
  decode_name-encode name h utf8 = rw (h.1, utf8) refl

  -- The fields of a rename intent are what the source can hold.
  pub record IsRename (intent : RenameIntent) : Type 0 where
    pub src_parent_uuid : IsUuid intent.src_parent
    pub dst_parent_uuid : IsUuid intent.dst_parent
    pub child_uuid : IsUuid intent.child
    pub src_name_code : IsEncoded intent.src_name
    pub dst_name_code : IsEncoded intent.dst_name
    pub inode_code : IsEncoded intent.inode
    pub src_name_utf8 : is_utf8 intent.src_name ≡ true
    pub dst_name_utf8 : is_utf8 intent.dst_name ≡ true

  -- The lines of a body.
  abbrev rename_lines : RenameIntent → List Text
  rename_lines intent =
      (codes "src_parent=" ++ intent.src_parent)
      ∷ (codes "src_name=" ++ encode intent.src_name)
      ∷ (codes "dst_parent=" ++ intent.dst_parent)
      ∷ (codes "dst_name=" ++ encode intent.dst_name)
      ∷ (codes "child=" ++ intent.child)
      ∷ (codes "inode=" ++ encode intent.inode)
      ∷ []

  module _ (intent : RenameIntent) (h : IsRename intent) where
    lines-serialize : lines (serialize encode intent) ≡ rename_lines intent
    unfolding serialize
    lines-serialize =
        lines-line_of (codes "src_parent=") intent.src_parent _ (omega arith) h.src_parent_uuid.0
        ∙ ap (λ r. (codes "src_parent=" ++ intent.src_parent) ∷ r)
            (lines-line_of (codes "src_name=") (encode intent.src_name) _ (omega arith)
                h.src_name_code.0
              ∙ ap (λ r. (codes "src_name=" ++ encode intent.src_name) ∷ r)
                  (lines-line_of (codes "dst_parent=") intent.dst_parent _ (omega arith)
                      h.dst_parent_uuid.0
                    ∙ ap (λ r. (codes "dst_parent=" ++ intent.dst_parent) ∷ r)
                        (lines-line_of (codes "dst_name=") (encode intent.dst_name) _ (omega arith)
                            h.dst_name_code.0
                          ∙ ap (λ r. (codes "dst_name=" ++ encode intent.dst_name) ∷ r)
                              (lines-line_of (codes "child=") intent.child _ (omega arith)
                                  h.child_uuid.0
                                ∙ ap (λ r. (codes "child=" ++ intent.child) ∷ r)
                                    (lines-line_of (codes "inode=") (encode intent.inode) []
                                        (omega arith) h.inode_code.0
                                      ∙ ap (λ r. (codes "inode=" ++ encode intent.inode) ∷ r)
                                          lines-nil)))))

    ascii-serialize : All (λ c. c < 128) (serialize encode intent)
    unfolding serialize
    ascii-serialize = ascii-line_of (codes "src_parent=") _ _ (omega arith) h.src_parent_uuid.0 (
        ascii-line_of (codes "src_name=") _ _ (omega arith) h.src_name_code.0 (
          ascii-line_of (codes "dst_parent=") _ _ (omega arith) h.dst_parent_uuid.0 (
            ascii-line_of (codes "dst_name=") _ _ (omega arith) h.dst_name_code.0 (
              ascii-line_of (codes "child=") _ _ (omega arith) h.child_uuid.0
                (ascii-line_of (codes "inode=") _ [] (omega arith) h.inode_code.0 tt)))))

    read-rename_lines :
        read_rename_lines decode parse_uuid
          (record {
            src_parent = none;
            src_name = none;
            dst_parent = none;
            dst_name = none;
            child = none;
            inode = none;
          })
          (rename_lines intent)
        ≡ ok (record {
          src_parent = some intent.src_parent;
          src_name = some intent.src_name;
          dst_parent = some intent.dst_parent;
          dst_name = some intent.dst_name;
          child = some intent.child;
          inode = some intent.inode;
        })
    unfolding read_rename_lines read_rename_line strip_prefix
    read-rename_lines =
        rw
          (
            h.src_parent_uuid.1,
            decode_name-encode intent.src_name h.src_name_code h.src_name_utf8,
            h.dst_parent_uuid.1,
            decode_name-encode intent.dst_name h.dst_name_code h.dst_name_utf8,
            h.child_uuid.1,
            h.inode_code.1,
          )
          refl

    -- A rename intent whose uuids are uuids, whose names are UTF-8, and whose names and inode the
    -- engine reads back is parsed from its body to itself.
    pub parse-serialize : parse decode parse_uuid (serialize encode intent) ≡ ok intent
    unfolding parse
    parse-serialize =
        rw
          (
            is_utf8_ascii (serialize encode intent) ascii-serialize,
            lines-serialize,
            read-rename_lines,
          )
          refl
