-- ===== src/Lock/Codec/RoundTrip.antt =====
-- A table is read back from its text.
use hyperdir.Base.{
  ◌-◌, ◌^◌, ◌≤◌, ◌<◌, ◌≡◌, ◌≢◌, refl, ap, ◌∙◌, some, List, [], ◌∷◌, arith, All, Text,
}
use hyperdir.Base.Int.{IsI64}
use hyperdir.Wire.{tab, decimal, decimal_i64, lines, split}
use hyperdir.Wire.Lines.{
  IsLineByte, IsFieldByte, lines-append, split-append, split_last, is_utf8_ascii, field_line,
  IsFieldByte-line, All-line, ascii_append,
}
use hyperdir.Wire.Numbers.{
  parse_uint-decimal, parse_i64-decimal_i64, decimal-IsFieldByte, decimal_i64-IsFieldByte,
}
use hyperdir.Lock.{LockKind, read, write, unlock, Entry, LockTable}
use hyperdir.Lock.Codec.{
  as_char, from_char, entry_line, encode_entries, encode, kind_of_field, decode_fields, keep,
  decode_lines, decode,
}

-- An entry as the service makes it: a token of printable ASCII as its owner, a mode that is stored,
-- and numbers of the widths of their fields.
pub record IsStored (e : Entry) : Type 0 where
  pub token : All IsFieldByte e.owner
  pub stored_kind : e.kind ≢ unlock
  pub start_u64 : e.start ≤ 2 ^ 64 - 1
  pub end_u64 : e.end ≤ 2 ^ 64 - 1
  pub pid_u32 : e.pid ≤ 2 ^ 32 - 1
  pub expire_i64 : IsI64 e.expire_ms

-- The six fields of a line.
abbrev fields_of : Entry → List Text
fields_of e =
    e.owner
    ∷ (as_char e.kind ∷ [])
    ∷ decimal e.start
    ∷ decimal e.end
    ∷ decimal e.pid
    ∷ decimal_i64 e.expire_ms
    ∷ []

as_char-IsFieldByte : (k : LockKind) → IsFieldByte (as_char k)
unfolding as_char
as_char-IsFieldByte read = omega arith
as_char-IsFieldByte write = omega arith
as_char-IsFieldByte unlock = omega arith

from_char-as_char : (k : LockKind) → k ≢ unlock → from_char (as_char k) ≡ some k
unfolding from_char as_char
from_char-as_char read h = refl
from_char-as_char write h = refl
from_char-as_char unlock h = absurd (h refl)

split-entry_line : (e : Entry) → IsStored e → split tab (entry_line e) ≡ fields_of e
unfolding entry_line
split-entry_line e h =
    split-append e.owner _ h.token
    ∙ ap (λ r. e.owner ∷ r)
        (split-append (as_char e.kind ∷ []) _ (as_char-IsFieldByte e.kind, tt)
          ∙ ap (λ r. (as_char e.kind ∷ []) ∷ r)
              (split-append (decimal e.start) _ (decimal-IsFieldByte e.start)
                ∙ ap (λ r. decimal e.start ∷ r)
                    (split-append (decimal e.end) _ (decimal-IsFieldByte e.end)
                      ∙ ap (λ r. decimal e.end ∷ r)
                          (split-append (decimal e.pid) _ (decimal-IsFieldByte e.pid)
                            ∙ ap (λ r. decimal e.pid ∷ r)
                                (split_last (decimal_i64 e.expire_ms)
                                  (decimal_i64-IsFieldByte e.expire_ms))))))

decode_fields-fields_of : (e : Entry) → IsStored e → decode_fields (fields_of e) ≡ some e
unfolding decode_fields kind_of_field
decode_fields-fields_of e h =
    rw
      (
        from_char-as_char e.kind h.stored_kind,
        parse_uint-decimal (2 ^ 64 - 1) e.start h.start_u64 (omega (arith, h.start_u64)),
        parse_uint-decimal (2 ^ 64 - 1) e.end h.end_u64 (omega (arith, h.end_u64)),
        parse_uint-decimal (2 ^ 32 - 1) e.pid h.pid_u32 (omega (arith, h.pid_u32)),
        parse_i64-decimal_i64 e.expire_ms h.expire_i64,
      )
      refl

tab_line : IsLineByte tab
tab_line = omega arith

entry_line-IsLineByte : (e : Entry) → IsStored e → All IsLineByte (entry_line e)
unfolding entry_line
entry_line-IsLineByte e h = IsFieldByte-line e.owner _ h.token (
  tab_line,
  (
    field_line (as_char e.kind) (as_char-IsFieldByte e.kind),
    (
      tab_line,
      IsFieldByte-line (decimal e.start) _ (decimal-IsFieldByte e.start) (
        tab_line,
        IsFieldByte-line (decimal e.end) _ (decimal-IsFieldByte e.end) (
          tab_line,
          IsFieldByte-line (decimal e.pid) _ (decimal-IsFieldByte e.pid)
              (tab_line, All-line (decimal_i64 e.expire_ms) (decimal_i64-IsFieldByte e.expire_ms)),
        ),
      ),
    ),
  ),
)

ascii-encode_entries : (es : List Entry) → All IsStored es → All (λ c. c < 128) (encode_entries es)
unfolding encode_entries
ascii-encode_entries [] h = tt
ascii-encode_entries (e ∷ es) (here, rest) =
    ascii_append (entry_line e) _ (entry_line-IsLineByte e here)
      (omega arith, ascii-encode_entries es rest)

lines-encode_entries :
    (es : List Entry) → All IsStored es → decode_lines (lines (encode_entries es)) ≡ es
unfolding encode_entries decode_lines
lines-encode_entries [] h = unfold lines in refl
lines-encode_entries (e ∷ es) (here, rest) =
    ap decode_lines (lines-append (entry_line e) (encode_entries es) (entry_line-IsLineByte e here))
    ∙ ap (λ f. keep (decode_fields f) (decode_lines (lines (encode_entries es))))
        (split-entry_line e here)
    ∙ ap (λ f. keep f (decode_lines (lines (encode_entries es)))) (decode_fields-fields_of e here)
    ∙ ap (λ r. e ∷ r) (lines-encode_entries es rest)

-- A table whose entries have owners of printable ASCII and numbers within the widths of their fields
-- is read back from its text: no entry is lost, split or changed.
pub decode-encode : (t : LockTable) → All IsStored t.entries → decode (encode t) ≡ t
unfolding decode encode
decode-encode t h =
    rw
      (
        is_utf8_ascii (118 ∷ 49 ∷ 10 ∷ encode_entries t.entries)
            (omega arith, (omega arith, (omega arith, ascii-encode_entries t.entries h))),
        lines-append (118 ∷ 49 ∷ []) (encode_entries t.entries) (omega arith),
        lines-encode_entries t.entries h,
      )
      refl
