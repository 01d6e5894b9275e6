-- ===== src/Lock/Tests.antt =====
-- The lock engine at concrete tables, after the unit tests of src/lock.rs.
use hyperdir.Base.{ℕ, true, none, some, ◌∷◌, ◌≡◌, refl, arith, ◌≢◌, Text, text_eq, codes, ok}
use hyperdir.Base.Int.{ℤ, pos, lez}
use hyperdir.Lock.{
  granted, LockKind, read, write, unlock, LockTable, default, set, purge_expired, test,
  remove_range, release_owner, renew, locks, in_force,
}
use hyperdir.Object.Single.{Store, single_client, single_client-IsStore}
use hyperdir.Lock.Codec.{encode}
use hyperdir.Lock.Service.{expiry, load_table, cas_put, setlk_from, fs_setlk}
use hyperdir.Lock.Service.Atomic.{OneStep, fs_setlk-granted}
use hyperdir.Lock.Conflicts.{Blocker}
use hyperdir.Lock.Grant.{set_granted, set_refused}
use hyperdir.Lock.Expiry.{locks-renew}
use hyperdir.Lock.History.{start, after_set, mutual_exclusion}
use hyperdir.Base.{[], All}
use hyperdir.Lock.{Entry}
use hyperdir.Lock.Codec.{decode}
use hyperdir.Lock.Codec.RoundTrip.{IsStored, decode-encode}
use hyperdir.Lock.Bounds.{IsSound, set-IsSound}
use hyperdir.Lock.Service.{unlock_owner_from, fs_unlock_owner, lock_renew_from, fs_lock_renew}
use hyperdir.Lock.Service.Owner.{Changed, fs_unlock_owner-Changed, fs_lock_renew-Changed}

engine : Unit {0}
unfolding set purge_expired test remove_range locks release_owner renew text_eq
engine = tt

abbrev far : ℤ
far = pos 9_000

abbrev now : ℤ
now = pos 1_000

abbrev alice : Text
alice = codes "a"

abbrev bob : Text
bob = codes "b"

abbrev held : LockTable
held = (set default alice write 0 100 7 far now).0

abbrev punched : LockTable
punched = (set held alice unlock 40 60 7 far now).0

-- `unlock_splits_middle`
unlock_splits_middle :
    ((set punched bob write 50 50 8 far now).1 ≡ none)
    × ((set punched bob write 0 0 8 far now).1
        ≡ some (record { start = 0; end = 39; kind = write; pid = 7 }))
unfolding engine
unlock_splits_middle = (refl, refl)

set_granted_example : locks (in_force (pos 2_000)) punched alice write 70 ≡ true
unfolding engine
set_granted_example =
    set_granted held alice unlock 40 60 7 far now (pos 2_000) alice write 70 refl refl

-- What a lock that is granted on an empty store leaves.
abbrev after_grant : Store
after_grant = some (encode (set default alice write 0 9 7 (expiry now 60_000) now).0)

granted_first :
    fs_setlk single_client (λ n w. w) (λ n. now) (codes "f/_lock") alice none write 0 9 7 60_000
    ≡ (after_grant, ok granted)
unfolding fs_setlk setlk_from load_table cas_put set test purge_expired
granted_first = refl

fs_setlk-granted_example :
    OneStep single_client single_client-IsStore
      (codes "f/_lock")
      (λ n w. w)
      (λ n. now)
      alice
      write
      0
      9
      7
      60_000
      after_grant
fs_setlk-granted_example =
    fs_setlk-granted single_client single_client-IsStore (codes "f/_lock") (λ n w. w) (λ n. now)
      alice write 0 9 7 60_000 none after_grant refl granted_first

locks-renew_example :
    locks (in_force (pos 9_500)) (renew held alice (pos 10_000)).0 alice write 50 ≡ true
unfolding engine
locks-renew_example = locks-renew (in_force (pos 9_500)) alice write 50 held alice (pos 10_000)

set_refused_example :
    ((later : ℤ) (o : Text) (k : LockKind) (p : ℕ)
      → lez now later ≡ true
      → locks (in_force later) (set held bob read 5 6 8 far now).0 o k p
        ≡ locks (in_force later) held o k p)
    × Blocker held bob read 5 6 now (record { start = 0; end = 100; kind = write; pid = 7 })
unfolding engine
set_refused_example =
    set_refused held bob read 5 6 8 far now (record { start = 0; end = 100; kind = write; pid = 7 })
      refl

alice-bob : alice ≢ bob
alice-bob h = apart refl refl (same_head h)
  where
    same_head : {a b : ℕ} {s t : Text} → a ∷ s ≡ b ∷ t → a ≡ b
    same_head e = cc

    apart : {a b : ℕ} → a ≡ 97 → b ≡ 98 → a ≢ b
    apart x y e = omega arith

-- Two readers of one byte.
abbrev readers : LockTable
readers = (set (set default alice read 0 10 7 far now).0 bob read 5 20 8 far now).0

alice_holds : locks (in_force now) readers alice read 7 ≡ true
unfolding engine
alice_holds = refl

bob_holds : locks (in_force now) readers bob read 7 ≡ true
unfolding engine
bob_holds = refl

mutual_exclusion_example : (read ≢ write) × (read ≢ write)
mutual_exclusion_example =
    mutual_exclusion (after_set bob read 5 20 8 far now (after_set alice read 0 10 7 far now start))
      now alice bob read read 7 alice-bob alice_holds bob_holds

abbrev entry : Entry
entry = record { owner = alice; kind = write; start = 0; end = 100; pid = 7; expire_ms = far }

abbrev written : LockTable
written = record { entries = entry ∷ [] }

write_stored : write ≢ unlock
write_stored e = cc

entry-IsStored : IsStored entry
entry-IsStored = record {
  token = omega arith;
  stored_kind = write_stored;
  start_u64 = omega arith;
  end_u64 = omega arith;
  pid_u32 = omega arith;
  expire_i64 = omega arith;
}

decode-encode_example : decode (encode written) ≡ written
decode-encode_example = decode-encode written (entry-IsStored, tt)

set-IsSound_example : All IsSound (set written bob read 5 6 8 far now).0.entries
set-IsSound_example =
    set-IsSound written bob 5 6 8 far now ((entry-IsStored, omega arith), tt)
      (record {
        token = omega arith;
        ordered = omega arith;
        end_u64 = omega arith;
        pid_u32 = omega arith;
        expire_i64 = omega arith;
      })
      read

-- What the release and the renewal of the one lock leave.
abbrev after_release : Store
after_release =
    (fs_unlock_owner single_client (λ n w. w) (λ n. now) (codes "f/_lock") alice after_grant).0

abbrev after_renewal : Store
after_renewal =
    (fs_lock_renew single_client (λ n w. w) (λ n. now) (codes "f/_lock") alice after_grant 90_000).0

released :
    fs_unlock_owner single_client (λ n w. w) (λ n. now) (codes "f/_lock") alice after_grant
    ≡ (after_release, ok tt)
unfolding fs_unlock_owner unlock_owner_from load_table release_owner decode encode set test
    purge_expired remove_range expiry text_eq cas_put
released = refl

renewed :
    fs_lock_renew single_client (λ n w. w) (λ n. now) (codes "f/_lock") alice after_grant 90_000
    ≡ (after_renewal, ok tt)
unfolding fs_lock_renew lock_renew_from load_table renew decode encode set test purge_expired
    remove_range expiry text_eq cas_put
renewed = refl

fs_unlock_owner-Changed_example :
    Changed single_client single_client-IsStore
      (codes "f/_lock")
      (λ n w. w)
      (λ n. now)
      alice
      (λ t. release_owner t alice)
      after_release
fs_unlock_owner-Changed_example =
    fs_unlock_owner-Changed single_client single_client-IsStore (codes "f/_lock") (λ n w. w)
      (λ n. now) alice after_grant after_release released

fs_lock_renew-Changed_example :
    (m : ℕ) × Changed single_client single_client-IsStore
      (codes "f/_lock")
      (λ n w. w)
      (λ n. now)
      alice
      (λ t. renew t alice (expiry now 90_000))
      after_renewal
fs_lock_renew-Changed_example =
    fs_lock_renew-Changed single_client single_client-IsStore (codes "f/_lock") (λ n w. w)
      (λ n. now) alice after_grant after_renewal 90_000 renewed
