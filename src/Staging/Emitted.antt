-- ===== src/Staging/Emitted.antt =====
-- The key of a scatter object is read back to what was emitted.
use hyperdir.Base.{
  ℕ, ◌≡◌, ◌≢◌, refl, sym, ap, ◌∙◌, true, Option, some, [], ◌∷◌, ◌++◌, arith, All, Text, codes,
}
use mathlib.Core.List.{append_assoc}
use hyperdir.Ondisk.Utf8.{is_utf8}
use hyperdir.Wire.{split, decimal}
use hyperdir.Wire.Numbers.{parse_uint-decimal}
use hyperdir.Scatter.{DirScatterInodeOp, as_u8, DirScatterInode}
use hyperdir.Staging.{path_encode}
use hyperdir.Staging.Keys.{
  strip_suffix, or_else, then_some, split_once, second_of_two, stem_of, decode_parts, path_decode,
}
use hyperdir.Staging.Parts.{
  Lacks, split_at, split_whole, split_once_at, IsPlain, Lacks-append, plain-Lacks, suffix_of,
  either_suffix, op_back, as_u8_small, op-IsPlain, suffix-Lacks, trim_first, one_later,
}

-- The parts behind the name, and the stem of a key.
pub parts_of : Text → Text → DirScatterInodeOp → Text
parts_of ulid uuid op = ulid ++ (95 ∷ (uuid ++ (95 ∷ decimal (as_u8 op))))

parts-Lacks :
    (c : ℕ) (ulid uuid : Text) (op : DirScatterInodeOp)
    → 95 ≢ c
    → Lacks c ulid
    → Lacks c uuid
    → Lacks c (decimal (as_u8 op))
    → Lacks c (parts_of ulid uuid op)
unfolding parts_of
parts-Lacks c ulid uuid op ne u v d = Lacks-append c ulid _ u (ne, Lacks-append c uuid _ v (ne, d))

split-parts_of :
    (ulid uuid : Text) (op : DirScatterInodeOp)
    → Lacks 95 ulid
    → Lacks 95 uuid
    → Lacks 95 (decimal (as_u8 op))
    → split 95 (parts_of ulid uuid op) ≡ ulid ∷ uuid ∷ decimal (as_u8 op) ∷ []
unfolding parts_of
split-parts_of ulid uuid op u v d =
    split_at 95 ulid _ u
    ∙ ap (λ r. ulid ∷ r)
        (split_at 95 uuid _ v ∙ ap (λ r. uuid ∷ r) (split_whole 95 (decimal (as_u8 op)) d))

module _ (base64 : Text → Text) (decode : Text → Option Text) (parse_ulid : Text → Option ℕ)
    (parse_uuid : Text → Option Text) (path filename uuid ulid : Text) (ulid_number : ℕ)
    (op : DirScatterInodeOp) (last_modified : ℕ) where
  -- What the crates document, at one key: the name's base64 is a text in the alphabet, which is
  -- decoded to the name, and the texts of the ULID and the uuid are parsed back.
  pub record IsKey : Type 0 where
    pub path_plain : Lacks 33 path
    pub name_utf8 : is_utf8 filename ≡ true
    pub code_plain : All IsPlain (base64 filename)
    pub code_given : base64 filename ≢ []
    pub code_back : decode (base64 filename) ≡ some filename
    pub ulid_plain : All IsPlain ulid
    pub ulid_back : parse_ulid ulid ≡ some ulid_number
    pub uuid_plain : All IsPlain uuid
    pub uuid_back : parse_uuid uuid ≡ some uuid

  module _ (h : IsKey) where
    abbrev pub stem : Text
    stem = base64 filename ++ (47 ∷ parts_of ulid uuid op)

    abbrev pub key : Text
    key = path_encode base64 ulid path filename uuid (as_u8 op)

    digits-Lacks :
        Lacks 33 (decimal (as_u8 op))
        × Lacks 46 (decimal (as_u8 op))
        × Lacks 47 (decimal (as_u8 op))
        × Lacks 95 (decimal (as_u8 op))
    digits-Lacks = plain-Lacks (decimal (as_u8 op)) (op-IsPlain op)

    stem-Lacks :
        (c : ℕ)
        → 95 ≢ c
        → 47 ≢ c
        → Lacks c (base64 filename)
        → Lacks c ulid
        → Lacks c uuid
        → Lacks c (decimal (as_u8 op))
        → Lacks c stem
    stem-Lacks c under slash b u v d =
        Lacks-append c (base64 filename) _ b (slash, parts-Lacks c ulid uuid op under u v d)

    key_shape : key ≡ path ++ (47 ∷ (33 ∷ (47 ∷ (stem ++ suffix_of op))))
    unfolding path_encode parts_of
    key_shape = refl

    pub key_suffix : key ≡ (path ++ (47 ∷ (33 ∷ (47 ∷ stem)))) ++ suffix_of op
    key_suffix = key_shape ∙ sym (append_assoc path (47 ∷ (33 ∷ (47 ∷ stem))) (suffix_of op))

    bang_once : split 33 key ≡ (path ++ (47 ∷ [])) ∷ (47 ∷ (stem ++ suffix_of op)) ∷ []
    bang_once =
        ap (split 33) (key_shape ∙ one_later path (33 ∷ (47 ∷ (stem ++ suffix_of op))) 47)
        ∙ split_at 33 (path ++ (47 ∷ [])) (47 ∷ (stem ++ suffix_of op))
            (Lacks-append 33 path (47 ∷ []) h.path_plain (omega arith))
        ∙ ap (λ r. (path ++ (47 ∷ [])) ∷ r)
            (split_whole 33 (47 ∷ (stem ++ suffix_of op)) (
              omega arith,
              Lacks-append 33 stem (suffix_of op)
                  (stem-Lacks 33 (omega arith) (omega arith)
                    (plain-Lacks (base64 filename) h.code_plain).0 (plain-Lacks ulid h.ulid_plain).0
                    (plain-Lacks uuid h.uuid_plain).0 digits-Lacks.0)
                  (suffix-Lacks op),
            ))

    stem_back : stem_of (47 ∷ (stem ++ suffix_of op)) ≡ some stem
    unfolding stem_of
    stem_back =
        ap (λ t. or_else (strip_suffix (codes ".inode") t) (strip_suffix (codes ".tombstone") t))
          (trim_first (base64 filename) (47 ∷ parts_of ulid uuid op) (suffix_of op) h.code_given
            (plain-Lacks (base64 filename) h.code_plain).2)
        ∙ either_suffix op stem (
            stem-Lacks 46 (omega arith) (omega arith) (plain-Lacks (base64 filename) h.code_plain).1
              (plain-Lacks ulid h.ulid_plain).1 (plain-Lacks uuid h.uuid_plain).1 digits-Lacks.1)

    -- What the key says.
    abbrev pub event : DirScatterInode
    event = record {
      key = key;
      op = op;
      ulid = ulid_number;
      uuid = uuid;
      filename = filename;
      last_modified = last_modified;
    }

    parts_back :
        decode_parts decode parse_ulid parse_uuid key last_modified
          (base64 filename)
          (ulid ∷ uuid ∷ decimal (as_u8 op) ∷ [])
        ≡ some event
    unfolding decode_parts
    parts_back =
        rw
          (
            h.ulid_back,
            h.code_back,
            h.name_utf8,
            h.uuid_back,
            parse_uint-decimal 255 (as_u8 op) (as_u8_small op) (omega (arith, as_u8_small op)),
            op_back op,
          )
          refl

    -- The key of every scatter object is read back: for a directory's path without an exclamation
    -- mark, a name whose base64 is not empty, and texts of a ULID and a uuid that the crates parse
    -- back, `path_decode` reads from the key that `path_encode` makes the operation, the ULID, the
    -- uuid and the name.
    pub path_decode-path_encode :
        path_decode decode parse_ulid parse_uuid key last_modified ≡ some event
    unfolding path_decode second_of_two
    path_decode-path_encode =
        ap
          (λ cs. then_some (second_of_two cs) λ component. then_some (stem_of component) λ stem.
            then_some (split_once 47 stem) λ halves.
              decode_parts decode parse_ulid parse_uuid key last_modified halves.0
                (split 95 halves.1))
          bang_once
        ∙ ap
            (λ o. then_some o λ stem. then_some (split_once 47 stem) λ halves.
              decode_parts decode parse_ulid parse_uuid key last_modified halves.0
                (split 95 halves.1))
            stem_back
        ∙ ap
            (λ o. then_some o λ halves.
              decode_parts decode parse_ulid parse_uuid key last_modified halves.0
                (split 95 halves.1))
            (split_once_at 47 (base64 filename) (parts_of ulid uuid op)
              (plain-Lacks (base64 filename) h.code_plain).2)
        ∙ ap (decode_parts decode parse_ulid parse_uuid key last_modified (base64 filename)) (
            split-parts_of ulid uuid op (plain-Lacks ulid h.ulid_plain).3
              (plain-Lacks uuid h.uuid_plain).3 digits-Lacks.3)
        ∙ parts_back
