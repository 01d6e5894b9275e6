-- ===== src/Fs/Intent/Reclaim.antt =====
-- Reclaim intents are read back from their bodies.
use hyperdir.Base.{
  ◌<◌, ◌≡◌, refl, ap, ◌∙◌, Bool, true, false, Option, none, some, List, [], ◌∷◌, ◌++◌, arith, All,
  Text, codes, text_eq, if◌then◌else◌, ok,
}
use hyperdir.Ondisk.Utf8.{is_utf8}
use hyperdir.Wire.{lines, strip_prefix}
use hyperdir.Wire.Lines.{IsFieldByte, is_utf8_ascii}
use hyperdir.Fs.Intent.{
  ReclaimIntent, serialize_reclaim, read_reclaim_line, read_reclaim_lines, parse_reclaim,
}
use hyperdir.Fs.Intent.RoundTrip.{
  IsUuid, IsEncoded, lines-line_of, ascii-line_of, lines-nil, decode_name-encode,
}

module _ (encode : Text → Text) (decode parse_uuid : Text → Option Text) where
  -- The fields of a reclaim intent are what the source can hold.
  pub record IsReclaim (intent : ReclaimIntent) : Type 0 where
    pub dst_parent_uuid : IsUuid encode decode parse_uuid intent.dst_parent
    pub displaced_uuid : IsUuid encode decode parse_uuid intent.displaced
    pub dst_name_code : IsEncoded encode decode parse_uuid intent.dst_name
    pub dst_name_utf8 : is_utf8 intent.dst_name ≡ true

  abbrev flag_text : Bool → Text
  flag_text is_dir = if is_dir then codes "1" else codes "0"

  flag_text-IsFieldByte : (is_dir : Bool) → All IsFieldByte (flag_text is_dir)
  flag_text-IsFieldByte true = omega arith
  flag_text-IsFieldByte false = omega arith

  abbrev reclaim_lines : ReclaimIntent → List Text
  reclaim_lines intent =
      (codes "dst_parent=" ++ intent.dst_parent)
      ∷ (codes "dst_name=" ++ encode intent.dst_name)
      ∷ (codes "displaced=" ++ intent.displaced)
      ∷ (codes "is_dir=" ++ flag_text intent.displaced_is_dir)
      ∷ []

  module _ (intent : ReclaimIntent) (h : IsReclaim intent) where
    lines-serialize_reclaim : lines (serialize_reclaim encode intent) ≡ reclaim_lines intent
    unfolding serialize_reclaim
    lines-serialize_reclaim =
        lines-line_of (codes "dst_parent=") intent.dst_parent _ (omega arith) h.dst_parent_uuid.0
        ∙ ap (λ r. (codes "dst_parent=" ++ intent.dst_parent) ∷ r)
            (lines-line_of (codes "dst_name=") (encode intent.dst_name) _ (omega arith)
                h.dst_name_code.0
              ∙ ap (λ r. (codes "dst_name=" ++ encode intent.dst_name) ∷ r)
                  (lines-line_of (codes "displaced=") intent.displaced _ (omega arith)
                      h.displaced_uuid.0
                    ∙ ap (λ r. (codes "displaced=" ++ intent.displaced) ∷ r)
                        (lines-line_of (codes "is_dir=") (flag_text intent.displaced_is_dir) []
                            (omega arith) (flag_text-IsFieldByte intent.displaced_is_dir)
                          ∙ ap (λ r. (codes "is_dir=" ++ flag_text intent.displaced_is_dir) ∷ r)
                              lines-nil)))

    ascii-serialize_reclaim : All (λ c. c < 128) (serialize_reclaim encode intent)
    unfolding serialize_reclaim
    ascii-serialize_reclaim =
        ascii-line_of (codes "dst_parent=") _ _ (omega arith) h.dst_parent_uuid.0 (
          ascii-line_of (codes "dst_name=") _ _ (omega arith) h.dst_name_code.0 (
            ascii-line_of (codes "displaced=") _ _ (omega arith) h.displaced_uuid.0 (
              ascii-line_of (codes "is_dir=") _ [] (omega arith)
                (flag_text-IsFieldByte intent.displaced_is_dir) tt)))

  flag_back : (is_dir : Bool) → text_eq (flag_text is_dir) (codes "1") ≡ is_dir
  unfolding text_eq
  flag_back true = refl
  flag_back false = refl

  module _ (intent : ReclaimIntent) (h : IsReclaim intent) where
    read-reclaim_lines :
        read_reclaim_lines decode parse_uuid
          (record { dst_parent = none; dst_name = none; displaced = none; is_dir = false })
          (reclaim_lines intent)
        ≡ ok (record {
          dst_parent = some intent.dst_parent;
          dst_name = some intent.dst_name;
          displaced = some intent.displaced;
          is_dir = text_eq (flag_text intent.displaced_is_dir) (codes "1");
        })
    unfolding read_reclaim_lines read_reclaim_line strip_prefix
    read-reclaim_lines =
        rw
          (
            h.dst_parent_uuid.1,
            decode_name-encode encode decode parse_uuid intent.dst_name h.dst_name_code
                h.dst_name_utf8,
            h.displaced_uuid.1,
          )
          refl

    -- A reclaim intent whose uuids are uuids and whose name is UTF-8 that the engine reads back is
    -- parsed from its body to itself, with its kind.
    pub parse-serialize_reclaim :
        parse_reclaim decode parse_uuid (serialize_reclaim encode intent) ≡ ok intent
    unfolding parse_reclaim
    parse-serialize_reclaim =
        rw
          (
            is_utf8_ascii (serialize_reclaim encode intent) (ascii-serialize_reclaim intent h),
            lines-serialize_reclaim intent h,
            read-reclaim_lines,
            flag_back intent.displaced_is_dir,
          )
          refl
