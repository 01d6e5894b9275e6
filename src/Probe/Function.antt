-- ===== src/Probe/Function.antt =====
-- A B-tree as a function from keys: it shows that the behaviour asked of `BMap` can hold.
use hyperdir.Base.{
  ℕ, ◌≤◌, true, ◌≡◌, refl, Option, none, some, arith, ◌==◌, if◌then◌else◌, Text, codes, [], ok, inl,
  text_eq,
}
use mathlib.Core.Option.{none-ne-some}
use hyperdir.Ondisk.{DirFileEntryRaw, from}
use hyperdir.Probe.{u64_max, BMap, named}
use hyperdir.Probe.Slots.{read, IsMap, IsTable, Models, update}
use hyperdir.Probe.Write.{write-Models}

abbrev pub Tree : Type 0 → Type 0
Tree V = ℕ → Option V

abbrev pub function_map : {V : Type 0} → BMap (Tree V) V
function_map = record {
  lookup = λ b k. read (b k);
  insert = λ b k v. ok (λ j. if j == k then some v else b j);
  delete = λ b k. ok (λ j. if j == k then none else b j);
}

abbrev pub function_map-IsMap : {V : Type 0} → IsMap (function_map {V = V})
function_map-IsMap = record {
  content = λ b. b;
  lookup_reads = λ b k. refl;
  insert_writes = λ b k v. ((λ j. if j == k then some v else b j), refl, λ j. refl);
  delete_clears = λ b k filled. ((λ j. if j == k then none else b j), refl, λ j. refl);
}

-- Every name has its home at the same key: all of them collide.
abbrev pub same_home : Text → ℕ
same_home _ = 5

abbrev pub alpha : Text
alpha = codes "a"

abbrev pub beta : Text
beta = codes "b"

abbrev pub alpha_entry : DirFileEntryRaw ℕ
alpha_entry = from 1 [] alpha

abbrev pub beta_entry : DirFileEntryRaw ℕ
beta_entry = from 2 [] beta

abbrev pub nothing : Tree (DirFileEntryRaw ℕ)
nothing _ = none

abbrev pub unbound : Text → Option (DirFileEntryRaw ℕ)
unbound _ = none

abbrev pub single : Tree (DirFileEntryRaw ℕ)
single j = if j == 5 then some alpha_entry else none

pub nothing-Models : Models same_home nothing unbound
nothing-Models = record {
  table = nothing-IsTable;
  present = λ name e q. absurd (none-ne-some e q);
  absent = λ name k e q held. absurd (none-ne-some e held);
}
  where
    nothing-IsTable : IsTable same_home nothing
    nothing-IsTable = record {
      bound = λ k e held. absurd (none-ne-some e held);
      after_home = λ k e held. absurd (none-ne-some e held);
      no_gap = λ k e i held lo hi. absurd (none-ne-some e held);
      once = λ j k e f name held_j held_k x y. absurd (none-ne-some e held_j);
    }

pub alpha-named : named alpha_entry alpha ≡ true
unfolding named from text_eq
alpha-named = refl

pub beta-named : named beta_entry beta ≡ true
unfolding named from text_eq
beta-named = refl

pub same_home_small : (name : Text) → same_home name ≤ u64_max
same_home_small name = omega arith

pub single-Models : Models same_home single (update unbound alpha (some alpha_entry))
single-Models =
    write-Models same_home nothing single nothing-Models.table alpha alpha_entry alpha-named 5
      (omega arith) (omega arith) (λ j lo hi. absurd (omega arith)) (inl refl) (λ j. refl) unbound
      nothing-Models
