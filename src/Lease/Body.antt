-- ===== src/Lease/Body.antt =====
-- The body of a lease is read back.
use hyperdir.Base.{◌<◌, ◌≡◌, refl, ap, ◌∙◌, none, [], ◌∷◌, ◌++◌, arith, All, Text, codes, ok}
use hyperdir.Base.Int.{ℤ, IsI64}
use hyperdir.Wire.{newline, decimal_i64, lines, strip_prefix}
use hyperdir.Wire.Lines.{
  IsFieldByte, IsLineByte, field_append, lines-append, All-line, ascii_append, is_utf8_ascii,
}
use hyperdir.Wire.Numbers.{parse_i64-decimal_i64, decimal_i64-IsFieldByte}
use hyperdir.Lease.{
  holder_line, expires_line, format_lease_body, read_line, read_lines, both, parse_lease_body,
}

holder_line-IsLineByte :
    (holder : Text) → All IsFieldByte holder → All IsLineByte (holder_line holder)
holder_line-IsLineByte holder h =
    All-line (holder_line holder) (field_append (codes "holder=") holder (omega arith) h)

expires_line-IsLineByte : (t : ℤ) → All IsLineByte (expires_line t)
unfolding expires_line
expires_line-IsLineByte t = All-line (expires_line t) (
    field_append (codes "expires_at_unix_ms=") (decimal_i64 t) (omega arith)
      (decimal_i64-IsFieldByte t))

lines-format_lease_body :
    (holder : Text) (t : ℤ)
    → All IsFieldByte holder
    → lines (format_lease_body holder t) ≡ holder_line holder ∷ expires_line t ∷ []
unfolding format_lease_body lines
lines-format_lease_body holder t h =
    lines-append (holder_line holder) (expires_line t ++ (newline ∷ []))
      (holder_line-IsLineByte holder h)
    ∙ ap (λ r. holder_line holder ∷ r)
        (lines-append (expires_line t) [] (expires_line-IsLineByte t))

read_both :
    (holder : Text) (t : ℤ)
    → IsI64 t
    → both (read_lines (none, none) (holder_line holder ∷ expires_line t ∷ [])) ≡ ok (holder, t)
unfolding read_lines read_line strip_prefix expires_line
read_both holder t h = rw (parse_i64-decimal_i64 t h) refl

ascii-format_lease_body :
    (holder : Text) (t : ℤ)
    → All IsFieldByte holder
    → All (λ c. c < 128) (format_lease_body holder t)
unfolding format_lease_body
ascii-format_lease_body holder t h =
    ascii_append (holder_line holder) _ (holder_line-IsLineByte holder h) (
      omega arith,
      ascii_append (expires_line t) (newline ∷ []) (expires_line-IsLineByte t) (omega arith, tt),
    )

-- When the holder is a token of printable ASCII, as a ULID is, and the expiry is an `i64`, the lease's
-- body is read back whole.
pub parse-format_lease_body :
    (holder : Text) (t : ℤ)
    → All IsFieldByte holder
    → IsI64 t
    → parse_lease_body (format_lease_body holder t) ≡ ok (holder, t)
unfolding parse_lease_body
parse-format_lease_body holder t token fits =
    rw
      (
        is_utf8_ascii (format_lease_body holder t) (ascii-format_lease_body holder t token),
        lines-format_lease_body holder t token,
      )
      (read_both holder t fits)
