-- ===== src/Scatter/Tests.antt =====
-- The latest events of a small list.
use hyperdir.Base.{ℕ, ◌≡◌, List, [], ◌∷◌, Text, codes}
use hyperdir.Scatter.{create, DirScatterInode, filter_last_view}
use hyperdir.Scatter.Latest.{latest, find_name, find_name-filter_last_view}

abbrev event : Text → ℕ → DirScatterInode
event name time = record {
  key = codes "k";
  op = create;
  ulid = time;
  uuid = [];
  filename = name;
  last_modified = time;
}

abbrev events : List DirScatterInode
events = event (codes "a") 2 ∷ event (codes "b") 3 ∷ event (codes "a") 1 ∷ []

find_name-filter_last_view_example :
    find_name (codes "a") (filter_last_view events) ≡ latest (codes "a") events
find_name-filter_last_view_example = find_name-filter_last_view (codes "a") events
