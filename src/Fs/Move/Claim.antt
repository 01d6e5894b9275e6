-- ===== src/Fs/Move/Claim.antt =====
-- What a claim of the source stands for.
use hyperdir.Base.{
  ℕ, zero, suc, ◌+◌, ◌*◌, ◌≡◌, refl, ◌⊎◌, inl, inr, none, some, Text, text_eq, text_eq_iff,
  Bool-cases, Result, ok, err,
}
use hyperdir.Ondisk.{DirFileEntryRaw}
use hyperdir.Layout.{HyperDirLayout, dir_uri}
use hyperdir.Object.{absent, PutAnswer, stored, refused, put_failed, IsStore}
use hyperdir.Directory.{◌>>>=◌, chain_ok}
use hyperdir.Directory.Entries.{read_entry_raw}
use hyperdir.Fs.{System, fs_open_dir}
use hyperdir.Fs.Intent.{RenameIntent, serialize}
use hyperdir.Fs.Move.{
  give_up, recheck, claimed, claim_key, claim_from, intent_of, emit_rename_intent,
  rename_claim_retries,
}

module _ {W B R S : Type 0} (sys : System W B R S) (store : IsStore sys.client)
    (layout : HyperDirLayout) (bucket : Text) (others : ℕ → W → W)
    (src_parent src_name dst_parent dst_name : Text) where
  abbrev key : Text
  key = claim_key sys layout bucket others src_parent src_name dst_parent dst_name

  abbrev intent_for : DirFileEntryRaw R → RenameIntent
  intent_for = intent_of sys layout bucket others src_parent src_name dst_parent dst_name

  -- A read of the source in a state.
  abbrev pub Reads : W → DirFileEntryRaw R → Type 0
  Reads w e =
      (b : B) × (fs_open_dir sys layout bucket w src_parent ≡ ok b)
      × (read_entry_raw sys.tree sys.crc64 (sys.dirs (dir_uri layout bucket src_parent)) b src_name
          ≡ ok e)

  -- The intent of an entry that was read, the put of it in the next attempt, which found its key
  -- free and which is followed by what the others do, and the state that the claim ends in, in
  -- which the source is still bound to the same child.
  abbrev pub Claimed : W → Text × RenameIntent → Type 0
  Claimed w' claim =
      (n : ℕ) × (w : W) × (e : DirFileEntryRaw R) × (u : W) × (tag : Text) × (e' : DirFileEntryRaw
        R)
      × Reads w e
      × (claim ≡ (key, intent_for e))
      × (sys.client.put_object (others (2 * n) w) key (serialize sys.b64_encode (intent_for e))
            absent
          ≡ (u, stored tag))
      × (store.content (others (2 * n) w) key ≡ none)
      × (store.content u key ≡ some (serialize sys.b64_encode (intent_for e), tag))
      × (w' ≡ others (2 * n + 1) u)
      × Reads w' e'
      × (e'.uuid ≡ e.uuid)

  recheck_ok :
      (w w' : W) (intent : RenameIntent) (r : Result (DirFileEntryRaw R))
      (claim : Text × RenameIntent)
      → recheck sys layout bucket w key intent r ≡ (w', ok claim)
      → (e : DirFileEntryRaw R) × (r ≡ ok e)
        × (e.uuid ≡ intent.child)
        × (w ≡ w')
        × (claim ≡ (key, intent))
  unfolding recheck give_up
  recheck_ok w w' intent (ok e) claim q = elim (Bool-cases (text_eq e.uuid intent.child)) [
    | inl same ↦
        (e, refl, (text_eq_iff e.uuid intent.child).0 same, cc (rw same at q), cc (rw same at q))
    | inr differ ↦ cc (rw differ at q)
  ]
  recheck_ok w w' intent (err e) claim q = cc

  claimed_ok :
      (n : ℕ) (w w' : W) (e : DirFileEntryRaw R) (p : W × PutAnswer)
      (again : W → W × Result (Text × RenameIntent)) (claim : Text × RenameIntent)
      → Reads w e
      → sys.client.put_object
          (others (2 * n) w)
          key
          (serialize sys.b64_encode (intent_for e))
          absent
        ≡ p
      → claimed sys layout bucket key (intent_for e) p (others (2 * n + 1)) again ≡ (w', ok claim)
      → Claimed w' claim ⊎ ((x : W) × (again x ≡ (w', ok claim)))
  unfolding claimed intent_of
  claimed_ok n w w' e (u, stored tag) again claim reads put q =
      let (x, b, opens, rest) =
        chain_ok
          (others (2 * n + 1) u, fs_open_dir sys layout bucket (others (2 * n + 1) u) src_parent)
          (λ w b. recheck sys layout bucket w key (intent_for e) (
            read_entry_raw sys.tree sys.crc64 (sys.dirs (dir_uri layout bucket src_parent)) b
              src_name))
          w' claim q in
      let (e', again_read, same, stays, is_claim) = recheck_ok x w' (intent_for e) _ claim rest in
      let (free, left) =
        store.put_absent (others (2 * n) w) u key (serialize sys.b64_encode (intent_for e)) tag
          put in
      inl (
        n,
        w,
        e,
        u,
        tag,
        e',
        reads,
        is_claim,
        put,
        free,
        left,
        ends (others (2 * n + 1) u) x w' b opens stays,
        (b, opened (others (2 * n + 1) u) x w' b opens stays, again_read),
        same,
      )
    where
      opened :
          (y x w' : W) (b : B)
          → ◌≡◌ {A = W × Result B} (y, fs_open_dir sys layout bucket y src_parent) (x, ok b)
          → x ≡ w'
          → fs_open_dir sys layout bucket w' src_parent ≡ ok b
      opened y x w' b is stays = cc

      ends :
          (y x w' : W) (b : B)
          → ◌≡◌ {A = W × Result B} (y, fs_open_dir sys layout bucket y src_parent) (x, ok b)
          → x ≡ w'
          → w' ≡ y
      ends y x w' b is stays = cc
  claimed_ok n w w' e (u, refused) again claim reads put q = inr (others (2 * n + 1) u, q)
  claimed_ok n w w' e (u, put_failed) again claim reads put q = cc

  claim_from-Claimed :
      (retries n : ℕ) (w w' : W) (claim : Text × RenameIntent)
      → claim_from sys layout bucket others src_parent src_name dst_parent dst_name retries n w
        ≡ (w', ok claim)
      → Claimed w' claim
  unfolding claim_from
  claim_from-Claimed zero n w w' claim q = cc
  claim_from-Claimed (suc retries) n w w' claim q =
      let (x, b, opens, rest) =
        chain_ok (w, fs_open_dir sys layout bucket w src_parent)
          (λ w b.
            (
              w,
              read_entry_raw sys.tree sys.crc64 (sys.dirs (dir_uri layout bucket src_parent)) b
                  src_name,
            )
            >>>= λ w entry. attempt w entry)
          w' claim q in
      let (y, e, reads, last) =
        chain_ok
          (
            x,
            read_entry_raw sys.tree sys.crc64 (sys.dirs (dir_uri layout bucket src_parent)) b
                src_name,
          )
          attempt w' claim rest in
      elim (claimed_ok n y w' e _ _ claim (second w x y b e opens reads) refl last) [
        | inl done ↦ done
        | inr (v, next) ↦ claim_from-Claimed retries (suc n) v w' claim next
      ]
    where
      attempt : W → DirFileEntryRaw R → W × Result (Text × RenameIntent)
      attempt w entry =
          claimed sys layout bucket key (intent_for entry)
            (sys.client.put_object (others (2 * n) w) key
              (serialize sys.b64_encode (intent_for entry)) absent)
            (others (2 * n + 1))
            (claim_from sys layout bucket others src_parent src_name dst_parent dst_name retries
              (suc n))

      opened :
          (w x y : W) (b : B) (e : DirFileEntryRaw R) (r : Result (DirFileEntryRaw R))
          → ◌≡◌ {A = W × Result B} (w, fs_open_dir sys layout bucket w src_parent) (x, ok b)
          → ◌≡◌ {A = W × Result (DirFileEntryRaw R)} (x, r) (y, ok e)
          → (fs_open_dir sys layout bucket y src_parent ≡ ok b) × (r ≡ ok e)
      opened w x y b e r opens reads = (cc, cc)

      second :
          (w x y : W) (b : B) (e : DirFileEntryRaw R)
          → ◌≡◌ {A = W × Result B} (w, fs_open_dir sys layout bucket w src_parent) (x, ok b)
          → ◌≡◌ {A = W × Result (DirFileEntryRaw R)}
              (
                x,
                read_entry_raw sys.tree sys.crc64
                    (sys.dirs (dir_uri layout bucket src_parent))
                    b
                    src_name,
              )
              (y, ok e)
          → Reads y e
      second w x y b e opens reads =
          let (opened_there, read_there) = opened w x y b e _ opens reads in
          (b, opened_there, read_there)

  -- On a store with conditional writes, whatever other clients do between the calls: when the claim
  -- of a source succeeds, then its intent is that of an entry that was read under the source's
  -- name; the store took a put of the intent's body under the source's one key, in the state that
  -- the others left after this read, in which there was no object under the key; the claim ends in
  -- the state that the others left after this put; and in it the source's name still holds the same
  -- child.
  pub emit_rename_intent-Claimed :
      (w w' : W) (claim : Text × RenameIntent)
      → emit_rename_intent sys layout bucket others src_parent src_name dst_parent dst_name w
        ≡ (w', ok claim)
      → Claimed w' claim
  unfolding emit_rename_intent
  emit_rename_intent-Claimed w w' claim q = claim_from-Claimed rename_claim_retries 0 w w' claim q
