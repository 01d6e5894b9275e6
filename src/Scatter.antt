-- ===== src/Scatter.antt =====
-- Scatter objects (`DirScatterInode` of src/lib.rs): the events of a directory's names, and
-- `filter_last_view`, the latest event of each name. The groups of the code's `HashMap` stand in the
-- order of their first event; nothing below depends on that order.
pub mod Order
pub mod Latest
mod Tests
use hyperdir.Base.{
  ℕ, Bool, true, false, ◌&&◌, ◌||◌, Option, none, some, List, [], ◌∷◌, ◌++◌, map, ltb, ◌==◌,
  if◌then◌else◌, Text, text_eq,
}

pub data DirScatterInodeOp : Type 0 where
  create update pre_delete delete unknown : DirScatterInodeOp

unfoldable pub from_u8 : ℕ → DirScatterInodeOp
from_u8 n =
    if n == 1
    then create
    else if n == 2
    then update
    else if n == 3
    then pre_delete
    else if n == 4
    then delete
    else unknown

-- The discriminant, `op as u8`.
unfoldable pub as_u8 : DirScatterInodeOp → ℕ
as_u8 create = 1
as_u8 update = 2
as_u8 pre_delete = 3
as_u8 delete = 4
as_u8 unknown = 255

-- `ulid` is its 128-bit number.
pub record DirScatterInode : Type 0 where
  pub key : Text
  pub op : DirScatterInodeOp
  pub ulid : ℕ
  pub uuid : Text
  pub filename : Text
  pub last_modified : ℕ

-- The order of texts by their bytes.
unfoldable pub text_lt : Text → Text → Bool
text_lt [] [] = false
text_lt [] (b ∷ t) = true
text_lt (a ∷ s) [] = false
text_lt (a ∷ s) (b ∷ t) = ltb a b || ((a == b) && text_lt s t)

-- The comparison of `sort_by`: `a` comes before `b`.
unfoldable pub before : DirScatterInode → DirScatterInode → Bool
before a b =
    ltb a.last_modified b.last_modified
    || ((a.last_modified == b.last_modified)
        && (ltb a.ulid b.ulid || ((a.ulid == b.ulid) && text_lt a.key b.key)))

-- `Vec::sort_by`, a stable sort.
unfoldable pub insert_sorted : DirScatterInode → List DirScatterInode → List DirScatterInode
insert_sorted s [] = s ∷ []
insert_sorted s (t ∷ ts) = if before t s then t ∷ insert_sorted s ts else s ∷ t ∷ ts

unfoldable pub sort : List DirScatterInode → List DirScatterInode
unfolding insert_sorted
sort [] = []
sort (s ∷ ss) = insert_sorted s (sort ss)

-- `Vec::pop`, of which only the value is used.
unfoldable pub pop : List DirScatterInode → Option DirScatterInode
pop [] = none
pop (s ∷ []) = some s
pop (s ∷ t ∷ ts) = pop (t ∷ ts)

abbrev pub Groups : Type 0
Groups = List (Text × List DirScatterInode)

-- `map.get_mut(&s.filename)`, and a push to its group or a new group.
unfoldable pub push_group : DirScatterInode → Groups → Groups
push_group s [] = (s.filename, s ∷ []) ∷ []
push_group s ((name, v) ∷ gs) =
    if text_eq name s.filename then (name, v ++ s ∷ []) ∷ gs else (name, v) ∷ push_group s gs

unfoldable pub group_from : Groups → List DirScatterInode → Groups
unfolding push_group
group_from gs [] = gs
group_from gs (s ∷ ss) = group_from (push_group s gs) ss

-- The last of each group. A group is never empty, so `expect` never panics: `last_of_groups`
-- passes over an empty group.
unfoldable pub last_of_groups : Groups → List DirScatterInode
unfolding sort pop
last_of_groups [] = []
last_of_groups ((name, v) ∷ gs) = elim (pop (sort v)) [
  | some last ↦ last ∷ last_of_groups gs
  | none ↦ last_of_groups gs
]

unfoldable pub filter_last_view : List DirScatterInode → List DirScatterInode
unfolding group_from last_of_groups
filter_last_view scatters = last_of_groups (group_from [] scatters)
