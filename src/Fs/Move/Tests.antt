-- ===== src/Fs/Move/Tests.antt =====
-- A rename from a directory that holds one name to an empty one.
use hyperdir.Base.{
  ℕ, ◌≡◌, ◌≢◌, refl, ap, true, none, some, [], ◌∷◌, arith, if◌then◌else◌, Text, codes, text_eq, ok,
}
use hyperdir.Layout.{new, dir_uri}
use hyperdir.Ondisk.Utf8.{is_utf8}
use hyperdir.Ondisk.{from}
use hyperdir.Probe.{named, probe_upsert, probe_delete, probe_lookup, shift_from}
use hyperdir.Probe.Slots.{update}
use hyperdir.Probe.Function.{
  function_map-IsMap, same_home_small, alpha, beta, alpha_entry, unbound, nothing, nothing-Models,
  single, single-Models,
}
use hyperdir.Object.Single.{Store, single_client-IsStore}
use hyperdir.Fs.Fixture.{one_object, Dirs, holding, many_dirs, many_dirs-IsDirs}
use hyperdir.Fs.Intent.{RenameIntent, serialize, parse}
use hyperdir.Fs.Intent.RoundTrip.{IsRename, parse-serialize}
use hyperdir.Fs.Move.{apply_rename_intent, claim_from, emit_rename_intent, moved_entry}
use hyperdir.Fs.Move.Applied.{Stands, apply_rename_intent-Moved}
use hyperdir.Base.Int.{pos}
use hyperdir.Fs.Recover.{ends_with, recover_key}
use hyperdir.Fs.Recover.Completed.{Completed, recover_key-Completed}
use hyperdir.Fs.Move.Claim.{Claimed, emit_rename_intent-Claimed}

abbrev bucket : Text
bucket = codes "b"

abbrev intent : RenameIntent
intent = record {
  src_parent = codes "s";
  src_name = alpha;
  dst_parent = codes "d";
  dst_name = beta;
  child = codes "u";
  inode = codes "i";
}

utf8_ab : (is_utf8 alpha ≡ true) × (is_utf8 beta ≡ true)
unfolding is_utf8
utf8_ab = (refl, refl)

intent-IsRename : IsRename (λ s. s) (λ s. some s) (λ s. some s) intent
intent-IsRename = record {
  src_parent_uuid = (omega arith, refl);
  dst_parent_uuid = (omega arith, refl);
  child_uuid = (omega arith, refl);
  src_name_code = (omega arith, refl);
  dst_name_code = (omega arith, refl);
  inode_code = (omega arith, refl);
  src_name_utf8 = utf8_ab.0;
  dst_name_utf8 = utf8_ab.1;
}

parse-serialize_example : parse (λ s. some s) (λ s. some s) (serialize (λ s. s) intent) ≡ ok intent
parse-serialize_example =
    parse-serialize (λ s. s) (λ s. some s) (λ s. some s) intent intent-IsRename

abbrev intent_body : Text
intent_body = serialize (λ s. s) intent

-- The source holds `a`, all other directories are empty.
abbrev at_start : Dirs
at_start u = if text_eq u (dir_uri new bucket (codes "s")) then single else nothing

source_before : at_start (dir_uri new bucket (codes "s")) ≡ single
unfolding text_eq dir_uri
source_before = refl

destination_before : at_start (dir_uri new bucket (codes "d")) ≡ nothing
unfolding text_eq dir_uri
destination_before = refl

source_apart : codes "s" ≢ codes "d"
source_apart h = absurd (heads h)
  where
    differ : {a b : ℕ} → a ≡ 115 → b ≡ 100 → a ≢ b
    differ x y e = omega arith

    head : {a b : ℕ} {s t : Text} → a ∷ s ≡ b ∷ t → a ≡ b
    head e = cc

    heads : codes "s" ≢ codes "d"
    heads e = differ refl refl (head e)

moved_fits : named (moved_entry (many_dirs (holding intent_body)) new bucket intent) beta ≡ true
unfolding named moved_entry text_eq
moved_fits = refl

abbrev after : Dirs
after = (apply_rename_intent (many_dirs (holding intent_body)) new bucket at_start intent).0

applied :
    apply_rename_intent (many_dirs (holding intent_body)) new bucket at_start intent
    ≡ (after, ok tt)
unfolding apply_rename_intent probe_upsert text_eq probe_delete probe_lookup named shift_from
applied = refl

source-Stands :
    Stands
      (many_dirs (holding intent_body))
      function_map-IsMap
      (many_dirs-IsDirs (holding intent_body))
      same_home_small
      at_start
      (dir_uri new bucket (codes "s"))
      (update unbound alpha (some alpha_entry))
source-Stands = (single, ap ok source_before, single-Models)

destination-Stands :
    Stands
      (many_dirs (holding intent_body))
      function_map-IsMap
      (many_dirs-IsDirs (holding intent_body))
      same_home_small
      at_start
      (dir_uri new bucket (codes "d"))
      unbound
destination-Stands = (nothing, ap ok destination_before, nothing-Models)

apply_rename_intent-Moved_example :
    Stands
      (many_dirs (holding intent_body))
      function_map-IsMap
      (many_dirs-IsDirs (holding intent_body))
      same_home_small
      after
      (dir_uri new bucket (codes "d"))
      (update unbound beta (some (moved_entry (many_dirs (holding intent_body)) new bucket intent)))
    × Stands
        (many_dirs (holding intent_body))
        function_map-IsMap
        (many_dirs-IsDirs (holding intent_body))
        same_home_small
        after
        (dir_uri new bucket (codes "s"))
        (update (update unbound alpha (some alpha_entry)) alpha none)
    × ((uri : Text)
        → uri ≢ dir_uri new bucket (codes "s")
        → uri ≢ dir_uri new bucket (codes "d")
        → (many_dirs (holding intent_body)).open_dir after uri
          ≡ (many_dirs (holding intent_body)).open_dir at_start uri)
apply_rename_intent-Moved_example =
    apply_rename_intent-Moved (many_dirs (holding intent_body)) function_map-IsMap
      (many_dirs-IsDirs (holding intent_body)) same_home_small new bucket intent moved_fits
      (update unbound alpha (some alpha_entry)) unbound at_start after source_apart source-Stands
      destination-Stands applied

abbrev claimed_store : Store
claimed_store =
    (emit_rename_intent one_object new bucket (λ n w. w) (codes "s") alpha (codes "d") beta none).0

abbrev claim_intent : RenameIntent
claim_intent = record {
  src_parent = codes "s";
  src_name = alpha;
  dst_parent = codes "d";
  dst_name = beta;
  child = [];
  inode = [];
}

claimed_first :
    emit_rename_intent one_object new bucket (λ n w. w) (codes "s") alpha (codes "d") beta none
    ≡ (claimed_store, ok (codes "_TXN/s_a.intent", claim_intent))
unfolding emit_rename_intent claim_from probe_lookup named from
claimed_first = refl

emit_rename_intent-Claimed_example :
    Claimed one_object single_client-IsStore new bucket
      (λ n w. w)
      (codes "s")
      alpha
      (codes "d")
      beta
      claimed_store
      (codes "_TXN/s_a.intent", claim_intent)
emit_rename_intent-Claimed_example =
    emit_rename_intent-Claimed one_object single_client-IsStore new bucket (λ n w. w) (codes "s")
      alpha (codes "d") beta none claimed_store (codes "_TXN/s_a.intent", claim_intent)
      claimed_first

recovered :
    recover_key
      (many_dirs (holding intent_body))
      new
      bucket
      (pos 9_000)
      at_start
      (codes "_TXN/s_a.intent")
    ≡ (after, ok 1)
unfolding recover_key apply_rename_intent probe_upsert text_eq probe_delete probe_lookup named
    shift_from serialize parse
recovered = refl

intent_key : ends_with (codes ".intent") (codes "_TXN/s_a.intent") ≡ true
unfolding ends_with text_eq
intent_key = refl

recover_key-Completed_example :
    (◌≡◌ {A = ℕ} 1 1)
    × Completed
        (many_dirs (holding intent_body))
        function_map-IsMap
        (many_dirs-IsDirs (holding intent_body))
        same_home_small
        new
        bucket
        intent
        moved_fits
        (update unbound alpha (some alpha_entry))
        unbound
        after
recover_key-Completed_example =
    recover_key-Completed (many_dirs (holding intent_body)) function_map-IsMap
      (many_dirs-IsDirs (holding intent_body)) same_home_small new bucket intent moved_fits
      (update unbound alpha (some alpha_entry)) unbound (pos 9_000) (codes "_TXN/s_a.intent") []
      at_start after 1 intent-IsRename (λ w key uri. refl) intent_key refl source_apart
      source-Stands destination-Stands recovered
