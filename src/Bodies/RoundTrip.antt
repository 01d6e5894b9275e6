-- ===== src/Bodies/RoundTrip.antt =====
-- What is built is what is parsed.
use hyperdir.Base.{
  ℕ, suc, ◌^◌, ◌<◌, Bool, true, false, ◌≡◌, refl, ◌∙◌, arith, ltb, if◌then◌else◌, length, Text, ok,
  err, invalid_data,
}
use hyperdir.Base.Int.{ℤ, pos, negsuc, IsI64}
use hyperdir.Bodies.{
  to_bits, of_bits, to_le, of_le, to_le_bytes, from_le_bytes, build_predelete_body,
  parse_predelete_body, TombstoneHeader, build_tombstone_body, parse_tombstone_body, header_size,
}

bits_round : (t : ℤ) → IsI64 t → of_bits (to_bits t) ≡ t
unfolding to_bits of_bits
bits_round (pos n) h = ground arith
bits_round (negsuc n) h = ground arith

bits_small : (t : ℤ) → IsI64 t → to_bits t < 2 ^ 64
unfolding to_bits
bits_small (pos n) h = omega arith
bits_small (negsuc n) h = omega arith

of_le-to_le_eight : (u : ℕ) → u < 2 ^ 64 → of_le (to_le 8 u) ≡ u
unfolding of_le to_le
of_le-to_le_eight u h = omega arith

le_round : (t : ℤ) → IsI64 t → from_le_bytes (to_le_bytes t) ≡ t
le_round t h = rw (of_le-to_le_eight (to_bits t) (bits_small t h)) (bits_round t h)

-- When the deadline is in the range of `i64`, the flag and the deadline that
-- `build_predelete_body` writes are read back whole.
pub parse-build_predelete_body :
    (is_dir : Bool) (t : ℤ)
    → IsI64 t
    → parse_predelete_body (build_predelete_body is_dir t) ≡ (is_dir, t)
unfolding parse_predelete_body build_predelete_body
parse-build_predelete_body true t h = λ i. (true, le_round t h i)
parse-build_predelete_body false t h = λ i. (false, le_round t h i)

-- A test that fails takes the second branch.
take_else : {A : Type 0} (b : Bool) (x y : A) → b ≡ false → (if b then x else y) ≡ y
take_else true x y h = cc
take_else false x y h = refl

build_tombstone_body-long :
    (d r : ℤ) (inode : Text) → ltb (length (build_tombstone_body d r inode)) header_size ≡ false
unfolding build_tombstone_body
build_tombstone_body-long d r inode = ltb_sixteen (length inode)
  where
    ltb_sixteen :
        (n : ℕ)
        → ltb
            (suc (
              suc (
                suc
                  (suc (suc (suc (suc (suc (suc (suc (suc (suc (suc (suc (suc (suc n))))))))))))))))
            header_size
          ≡ false
    ltb_sixteen n = ground arith

-- When both times are in the range of `i64`, the header and the inode that `build_tombstone_body`
-- writes are read back whole.
pub parse-build_tombstone_body :
    (deleted_at retention_until : ℤ) (inode_raw_bytes : Text)
    → IsI64 deleted_at
    → IsI64 retention_until
    → parse_tombstone_body (build_tombstone_body deleted_at retention_until inode_raw_bytes)
      ≡ ok (
        record { deleted_at_unix_ms = deleted_at; retention_until_unix_ms = retention_until },
        inode_raw_bytes,
      )
unfolding parse_tombstone_body build_tombstone_body
parse-build_tombstone_body d r inode hd hr =
    take_else (ltb (length (build_tombstone_body d r inode)) header_size) (err invalid_data)
      (ok (header, inode)) (build_tombstone_body-long d r inode)
    ∙ (λ i. ok (read_at i, inode))
  where
    header : TombstoneHeader
    header = record {
      deleted_at_unix_ms = from_le_bytes (to_le_bytes d);
      retention_until_unix_ms = from_le_bytes (to_le_bytes r);
    }

    read_at : header ≡ record { deleted_at_unix_ms = d; retention_until_unix_ms = r }
    read_at = λ i. record {
      deleted_at_unix_ms = le_round d hd i;
      retention_until_unix_ms = le_round r hr i;
    }
