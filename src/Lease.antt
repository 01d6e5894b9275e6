-- ===== src/Lease.antt =====
-- The compactor's leader lease: its body (src/lib.rs), and its acquisition, takeover and release
-- through conditional writes (src/s3.rs). `others n` is what other clients do to the store before
-- the call `n`; the clock is read once, and the holder is a fresh ULID: both are arguments.
pub mod Holder
pub mod Body
mod Tests
use hyperdir.Base.{
  ℕ, Option, none, some, List, [], ◌∷◌, ◌++◌, if◌then◌else◌, Text, codes, ErrorKind, resource_busy,
  invalid_data, other, Result, ok, err, ◌>>=◌,
}
use hyperdir.Base.Int.{ℤ, ltz, saturating_add}
use hyperdir.Bodies.{of_bits}
use hyperdir.Ondisk.Utf8.{is_utf8}
use hyperdir.Wire.{newline, decimal_i64, parse_i64, lines, strip_prefix}
use hyperdir.Object.{
  absent, matching, GetAnswer, body, no_such_key, get_failed, PutAnswer, stored, refused,
  put_failed, Client,
}

pub record CompactLeaseGuard : Type 0 where
  pub holder_id : Text
  pub etag : Text
  pub lease_key : Text
  pub expires_at_unix_ms : ℤ

-- The two lines.
abbrev pub holder_line : Text → Text
holder_line holder = codes "holder=" ++ holder

unfoldable pub expires_line : ℤ → Text
unfolding decimal_i64
expires_line expires_at = codes "expires_at_unix_ms=" ++ decimal_i64 expires_at

unfoldable pub format_lease_body : Text → ℤ → Text
unfolding expires_line
format_lease_body holder expires_at =
    holder_line holder ++ (newline ∷ (expires_line expires_at ++ (newline ∷ [])))

-- One line of the loop of `parse_lease_body`.
unfoldable pub read_line : Option Text × Option ℤ → Text → Option Text × Option ℤ
unfolding strip_prefix parse_i64
read_line (holder, expires_at) line = elim (strip_prefix (codes "holder=") line) [
  | some v ↦ (some v, expires_at)
  | none ↦ elim (strip_prefix (codes "expires_at_unix_ms=") line) [
    | some v ↦ (holder, parse_i64 v)
    | none ↦ (holder, expires_at)
  ]
]

unfoldable pub read_lines : Option Text × Option ℤ → List Text → Option Text × Option ℤ
unfolding read_line
read_lines found [] = found
read_lines found (line ∷ rest) = read_lines (read_line found line) rest

-- Both fields, or an error.
abbrev pub both : Option Text × Option ℤ → Result (Text × ℤ)
both (some holder, some expires_at) = ok (holder, expires_at)
both (some holder, none) = err invalid_data
both (none, _) = err invalid_data

unfoldable pub parse_lease_body : Text → Result (Text × ℤ)
unfolding read_lines lines is_utf8
parse_lease_body buf =
    if is_utf8 buf then both (read_lines (none, none) (lines buf)) else err invalid_data

-- `now_ms.saturating_add(ttl_ms as i64)`
unfoldable pub lease_expiry : ℤ → ℕ → ℤ
unfolding saturating_add of_bits
lease_expiry now_ms ttl_ms = saturating_add now_ms (of_bits ttl_ms)

module _ {W : Type 0} (client : Client W) (others : ℕ → W → W) (lease_key holder_id : Text)
    (ttl_ms : ℕ) (now_ms : ℤ) where
  abbrev pub guard : Text → CompactLeaseGuard
  guard etag = record {
    holder_id = holder_id;
    etag = etag;
    lease_key = lease_key;
    expires_at_unix_ms = lease_expiry now_ms ttl_ms;
  }

  -- The answer to the put of a takeover.
  unfoldable pub taken : W × PutAnswer → W × Result CompactLeaseGuard
  taken (w, stored etag) = (w, ok (guard etag))
  taken (w, refused) = (w, err resource_busy)
  taken (w, put_failed) = (w, err other)

  -- The takeover, once the body of the lease is parsed.
  unfoldable pub take_over_parsed : W → Text → Result (Text × ℤ) → W × Result CompactLeaseGuard
  unfolding taken
  take_over_parsed w existing_etag (err e) = (w, err e)
  take_over_parsed w existing_etag (ok (existing_holder, existing_expires)) =
      let put = taken (
        client.put_object (others 1 w) lease_key
          (format_lease_body holder_id (lease_expiry now_ms ttl_ms)) (matching existing_etag)) in
      if ltz now_ms existing_expires then (w, err resource_busy) else put

  unfoldable pub take_over_read : W → GetAnswer → W × Result CompactLeaseGuard
  unfolding take_over_parsed
  take_over_read w (body existing_body existing_etag) =
      take_over_parsed w existing_etag (parse_lease_body existing_body)
  take_over_read w no_such_key = (w, err resource_busy)
  take_over_read w get_failed = (w, err resource_busy)

  unfoldable pub try_take_over_compact_lease : W → W × Result CompactLeaseGuard
  unfolding take_over_read
  try_take_over_compact_lease w = take_over_read w (client.get_object w lease_key)

  -- The answer to the create-once put.
  unfoldable pub created : W × PutAnswer → W × Result CompactLeaseGuard
  unfolding try_take_over_compact_lease
  created (w, stored etag) = (w, ok (guard etag))
  created (w, refused) = try_take_over_compact_lease (others 0 w)
  created (w, put_failed) = (w, err other)

  unfoldable pub acquire_compact_lease : W → W × Result CompactLeaseGuard
  unfolding created
  acquire_compact_lease w = created (
      client.put_object w lease_key (format_lease_body holder_id (lease_expiry now_ms ttl_ms))
        absent)

-- Every answer to the conditional delete is `Ok(())`.
unfoldable pub release_compact_lease :
    {W : Type 0} → Client W → W → CompactLeaseGuard → W × Result (Unit {0})
release_compact_lease client w guard =
    ((client.delete_object w guard.lease_key (matching guard.etag)).0, ok tt)
