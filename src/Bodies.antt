-- ===== src/Bodies.antt =====
-- The bodies of scatter objects (src/lib.rs): the PreDelete marker, `is_dir` and a deadline, and the
-- tombstone, a header of two times before the raw inode. Times are `i64` in little-endian bytes.
mod Tests
pub mod RoundTrip
use hyperdir.Base.{
  ℕ, zero, suc, ◌+◌, ◌-◌, ◌*◌, ◌/◌, ◌%◌, ◌^◌, Bool, true, false, not, List, [], ◌∷◌, ◌++◌, ltb,
  ◌==◌, if◌then◌else◌, length, take, drop, Text, Result, ok, err, invalid_data,
}
use hyperdir.Base.Int.{ℤ, pos, negsuc}

-- The bit pattern of an `i64`, and the `i64` of a pattern.
unfoldable pub to_bits : ℤ → ℕ
to_bits (pos n) = n
to_bits (negsuc n) = 2 ^ 64 - 1 - n

unfoldable pub of_bits : ℕ → ℤ
of_bits u = if ltb u (2 ^ 63) then pos u else negsuc (2 ^ 64 - 1 - u)

-- `count` little-endian bytes of a number, and the number of such bytes.
unfoldable pub to_le : ℕ → ℕ → Text
to_le zero u = []
to_le (suc count) u = u % 256 ∷ to_le count (u / 256)

unfoldable pub of_le : Text → ℕ
of_le [] = 0
of_le (b ∷ bs) = b + 256 * of_le bs

abbrev pub to_le_bytes : ℤ → Text
to_le_bytes t = to_le 8 (to_bits t)

abbrev pub from_le_bytes : Text → ℤ
from_le_bytes bs = of_bits (of_le bs)

unfoldable pub build_predelete_body : Bool → ℤ → Text
unfolding to_bits to_le
build_predelete_body is_dir retention_until_unix_ms =
    (if is_dir then 1 else 0) ∷ to_le_bytes retention_until_unix_ms

-- `buf.first()`, and `buf.get(1..9)`, which is `None` on a body of fewer than nine bytes.
unfoldable pub parse_predelete_body : Text → Bool × ℤ
unfolding of_bits of_le
parse_predelete_body [] = (false, pos 0)
parse_predelete_body (b ∷ bs) =
    (not (b == 0), if ltb (length bs) 8 then pos 0 else from_le_bytes (take 8 bs))

pub record TombstoneHeader : Type 0 where
  pub deleted_at_unix_ms : ℤ
  pub retention_until_unix_ms : ℤ

-- `size_of::<TombstoneHeader>()`
abbrev pub header_size : ℕ
header_size = 16

unfoldable pub build_tombstone_body : ℤ → ℤ → Text → Text
unfolding to_bits to_le
build_tombstone_body deleted_at retention_until inode_raw_bytes =
    (to_le_bytes deleted_at ++ to_le_bytes retention_until) ++ inode_raw_bytes

unfoldable pub parse_tombstone_body : Text → Result (TombstoneHeader × Text)
unfolding of_bits of_le
parse_tombstone_body buf =
    if ltb (length buf) header_size
    then err invalid_data
    else (ok (
      record {
        deleted_at_unix_ms = from_le_bytes (take 8 buf);
        retention_until_unix_ms = from_le_bytes (take 8 (drop 8 buf));
      },
      drop header_size buf,
    ))
