-- ===== src/Lease/Tests.antt =====
-- The lease on a store of one object.
use hyperdir.Base.{ℕ, ◌≡◌, ◌≢◌, refl, none, some, [], ◌∷◌, Text, codes, ok}
use hyperdir.Base.Int.{pos}
use hyperdir.Object.Single.{single_client, single_client-IsStore}
use hyperdir.Lease.{
  CompactLeaseGuard, guard, format_lease_body, lease_expiry, acquire_compact_lease,
  release_compact_lease,
}
use hyperdir.Lease.Holder.{Acquired, acquire_compact_lease-Acquired, release_compact_lease-late}
use hyperdir.Base.{arith}
use hyperdir.Lease.{parse_lease_body}
use hyperdir.Lease.Body.{parse-format_lease_body}

abbrev lease_key : Text
lease_key = codes "d/_compact.lease"

abbrev written : Text
written = format_lease_body (codes "h") (lease_expiry (pos 100) 50)

-- What a first acquisition answers.
acquired :
    acquire_compact_lease single_client (λ n w. w) lease_key (codes "h") 50 (pos 100) none
    ≡ (some written, ok (guard single_client (λ n w. w) lease_key (codes "h") 50 (pos 100) written))
unfolding acquire_compact_lease
acquired = refl

acquire_compact_lease-Acquired_example :
    Acquired single_client single_client-IsStore
      (λ n w. w)
      lease_key
      (codes "h")
      50
      (pos 100)
      (some written)
      (guard single_client (λ n w. w) lease_key (codes "h") 50 (pos 100) written)
acquire_compact_lease-Acquired_example =
    acquire_compact_lease-Acquired single_client single_client-IsStore (λ n w. w) lease_key
      (codes "h") 50 (pos 100) none (some written)
      (guard single_client (λ n w. w) lease_key (codes "h") 50 (pos 100) written) acquired

-- A guard of an earlier lease.
abbrev earlier : CompactLeaseGuard
earlier = record {
  holder_id = codes "g";
  etag = [];
  lease_key = lease_key;
  expires_at_unix_ms = pos 50;
}

written_new : written ≢ []
unfolding format_lease_body
written_new h = absurd (nonempty h)
  where
    nonempty : {c : ℕ} {s : Text} → c ∷ s ≢ []
    nonempty e = cc

release_compact_lease-late_example :
    single_client-IsStore.content
      (release_compact_lease single_client (some written) earlier).0
      lease_key
    ≡ some (written, written)
release_compact_lease-late_example =
    release_compact_lease-late single_client single_client-IsStore (λ n w. w) lease_key (codes "h")
      50 (pos 100) none (some written) earlier
      (guard single_client (λ n w. w) lease_key (codes "h") 50 (pos 100) written) acquired refl
      written_new

parse-format_lease_body_example :
    parse_lease_body (format_lease_body (codes "h") (pos 150)) ≡ ok (codes "h", pos 150)
parse-format_lease_body_example =
    parse-format_lease_body (codes "h") (pos 150) (omega arith) (omega arith)
