-- ===== src/Directory/Listing/Events.antt =====
-- What the dictionaries of the collected events (`collect_scatter_changes` of src/file.rs) have under
-- a name.
use hyperdir.Base.{
  ◌≡◌, refl, ap, ◌∙◌, Bool, true, false, ◌||◌, Option, none, some, List, [], ◌∷◌, map, any,
  if◌then◌else◌, Text, text_eq,
}
use hyperdir.Base.Int.{ℤ}
use hyperdir.Ondisk.{DirFileEntryRaw, from}
use hyperdir.Scatter.{DirScatterInode}
use hyperdir.Directory.{Dict, insert, get}
use hyperdir.Directory.Changes.{entry_of, upserts_of, deletes_of, predeletes_of}
use hyperdir.Directory.Listing.{overlay}
use hyperdir.Directory.Listing.Dicts.{over, hidden, get-insert}

-- The last binding of a name in a list.
abbrev pub last_bound : {V : Type 0} → Text → List (Text × V) → Option V
last_bound name [] = none
last_bound name ((k, v) ∷ rest) =
    over (last_bound name rest) (if text_eq k name then some v else none)

-- The name and the entry of an event with its body.
abbrev pub entry_under :
    {I : Type 0} → (Text → I) → DirScatterInode × Text → Text × DirFileEntryRaw I
entry_under inode_of (s, body) = (s.filename, from (inode_of body) s.uuid s.filename)

-- The event is of the name.
abbrev pub of_name : Text → DirScatterInode → Bool
of_name name s = text_eq s.filename name

over_if :
    {V : Type 0} (b : Bool) (o held : Option V) (v : V)
    → over o (if b then some v else held) ≡ over (over o (if b then some v else none)) held
over_if true none held v = refl
over_if true (some x) held v = refl
over_if false none held v = refl
over_if false (some x) held v = refl

pub get-overlay_last :
    {V : Type 0} (name : Text) (d view : Dict V)
    → get name (overlay view d) ≡ over (last_bound name d) (get name view)
unfolding overlay
get-overlay_last name [] view = refl
get-overlay_last name ((k, v) ∷ d) view =
    get-overlay_last name d (insert k v view)
    ∙ ap (over (last_bound name d)) (get-insert name k v view)
    ∙ over_if (text_eq k name) (last_bound name d) (get name view) v

pub get-upserts_of :
    {I : Type 0} (inode_of : Text → I) (name : Text) (fetched : List (DirScatterInode × Text))
    (d : Dict (DirFileEntryRaw I))
    → get name (upserts_of inode_of d fetched)
      ≡ over (last_bound name (map (entry_under inode_of) fetched)) (get name d)
unfolding upserts_of entry_of
get-upserts_of inode_of name [] d = refl
get-upserts_of inode_of name ((s, body) ∷ rest) d =
    get-upserts_of inode_of name rest (insert s.filename (from (inode_of body) s.uuid s.filename) d)
    ∙ ap (over (last_bound name (map (entry_under inode_of) rest)))
        (get-insert name s.filename (from (inode_of body) s.uuid s.filename) d)
    ∙ over_if (text_eq s.filename name) _ (get name d) _

hidden-insert :
    {U V : Type 0} (name k : Text) (u : U) (d : Dict U) (o : Option V)
    → hidden (get name (insert k u d)) o ≡ (if text_eq k name then none else hidden (get name d) o)
hidden-insert name k u d o = ap (λ x. hidden x o) (get-insert name k u d) ∙ split (text_eq k name)
  where
    split :
        (b : Bool)
        → hidden (if b then some u else get name d) o ≡ (if b then none else hidden (get name d) o)
    split true = refl
    split false = refl

either_none :
    {V : Type 0} (a b : Bool) (o : Option V)
    → (if a then none else (if b then none else o)) ≡ (if b || a then none else o)
either_none true true o = refl
either_none true false o = refl
either_none false true o = refl
either_none false false o = refl

pub hidden-deletes_of :
    {V : Type 0} (name : Text) (ss : List DirScatterInode) (d : Dict Text) (o : Option V)
    → hidden (get name (deletes_of d ss)) o
      ≡ (if any (of_name name) ss then none else hidden (get name d) o)
unfolding deletes_of any
hidden-deletes_of name [] d o = refl
hidden-deletes_of name (s ∷ ss) d o =
    hidden-deletes_of name ss (insert s.filename s.uuid d) o
    ∙ ap (λ x. if any (of_name name) ss then none else x) (hidden-insert name s.filename s.uuid d o)
    ∙ either_none (any (of_name name) ss) (text_eq s.filename name) (hidden (get name d) o)

pub hidden-predeletes_of :
    {V : Type 0} (name : Text) (fetched : List (DirScatterInode × Text))
    (d : Dict (Text × Bool × ℤ)) (o : Option V)
    → hidden (get name (predeletes_of d fetched)) o
      ≡ (if any (λ p. of_name name p.0) fetched then none else hidden (get name d) o)
unfolding predeletes_of any
hidden-predeletes_of name [] d o = refl
hidden-predeletes_of name ((s, body) ∷ rest) d o =
    hidden-predeletes_of name rest _ o
    ∙ ap (λ x. if any (λ p. of_name name p.0) rest then none else x)
        (hidden-insert name s.filename _ d o)
    ∙ either_none (any (λ p. of_name name p.0) rest) (text_eq s.filename name)
        (hidden (get name d) o)
