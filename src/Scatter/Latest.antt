-- ===== src/Scatter/Latest.antt =====
-- `filter_last_view` holds, for each name with an event, the greatest event of that name.
use hyperdir.Base.{
  Bool, true, false, ◌≡◌, refl, sym, ◌∙◌, ap, inl, inr, Option, none, some, List, [], ◌∷◌, ◌++◌,
  if◌then◌else◌, arith, retain, Text, text_eq, text_eq_iff, Bool-cases, Option-cases, All, All-snoc,
}
use mathlib.Core.Option.{none-ne-some, some-injective}
use mathlib.Core.Path.{subst}
use mathlib.Core.List.{append_assoc, append-nil}
use hyperdir.Scatter.{
  DirScatterInode, before, Groups, push_group, group_from, last_of_groups, filter_last_view,
}
use hyperdir.Scatter.Order.{greatest, pop-sort}

-- The events of a name, in the order of the list, and the greatest of them.
abbrev pub events_of : Text → List DirScatterInode → List DirScatterInode
events_of name ss = retain (λ s. text_eq s.filename name) ss

unfoldable pub latest : Text → List DirScatterInode → Option DirScatterInode
latest name ss = greatest (events_of name ss)

-- The entry of a name in a list of events.
unfoldable pub find_name : Text → List DirScatterInode → Option DirScatterInode
find_name name [] = none
find_name name (s ∷ ss) = if text_eq s.filename name then some s else find_name name ss

lookup_group : Text → Groups → List DirScatterInode
lookup_group name [] = []
lookup_group name ((n, v) ∷ gs) = if text_eq n name then v else lookup_group name gs

lookup_group-push :
    (name : Text) (s : DirScatterInode) (gs : Groups)
    → lookup_group name (push_group s gs)
      ≡ (if text_eq s.filename name then lookup_group name gs ++ s ∷ [] else lookup_group name gs)
unfolding lookup_group push_group
lookup_group-push name s [] = refl
lookup_group-push name s ((n, v) ∷ gs) = ground (
  arith,
  lookup_group-push name s gs,
  text_eq_iff n name,
  text_eq_iff n s.filename,
  text_eq_iff s.filename name,
)

lookup_group-from :
    (name : Text) (ss : List DirScatterInode) (gs : Groups)
    → lookup_group name (group_from gs ss) ≡ lookup_group name gs ++ events_of name ss
unfolding group_from retain
lookup_group-from name [] gs = sym (append-nil (lookup_group name gs))
lookup_group-from name (s ∷ ss) gs = elim (Bool-cases (text_eq s.filename name)) [
  | inl same ↦ rw same (
      lookup_group-from name ss (push_group s gs)
      ∙ ap (λ g. g ++ events_of name ss) (lookup_group-push name s gs ∙ rw same)
      ∙ append_assoc (lookup_group name gs) (s ∷ []) (events_of name ss))
  | inr differ ↦ rw differ (
      lookup_group-from name ss (push_group s gs)
      ∙ ap (λ g. g ++ events_of name ss) (lookup_group-push name s gs ∙ rw differ))
]

-- The events of a group are not none, and carry the name of the group.
abbrev IsGroup : Text × List DirScatterInode → Type 0
IsGroup g = (greatest g.1 ≡ none → ⊥) × All (λ s. s.filename ≡ g.0) g.1

greatest-All :
    (P : DirScatterInode → Type 0) (ss : List DirScatterInode) (t : DirScatterInode)
    → All P ss
    → greatest ss ≡ some t
    → P t
unfolding greatest
greatest-All P [] t h e = absurd (none-ne-some t e)
greatest-All P (s ∷ ss) t h e = elim (Option-cases (greatest ss)) [
  | inl gap ↦ subst P (some-injective s t (ground arith)) h.0
  | inr (u, found) ↦ elim (Bool-cases (before u s)) [
    | inl above ↦ subst P (some-injective s t (ground arith)) h.0
    | inr below ↦ subst P (some-injective u t (ground arith)) (greatest-All P ss u h.1 found)
  ]
]

greatest-some : (s : DirScatterInode) (ss : List DirScatterInode) → greatest (s ∷ ss) ≡ none → ⊥
unfolding greatest
greatest-some s ss e = ground arith

greatest-append :
    (ss : List DirScatterInode) (s : DirScatterInode) → greatest (ss ++ s ∷ []) ≡ none → ⊥
greatest-append [] s = greatest-some s []
greatest-append (x ∷ ss) s = greatest-some x (ss ++ s ∷ [])

push_group-IsGroup :
    (s : DirScatterInode) (gs : Groups) → All IsGroup gs → All IsGroup (push_group s gs)
unfolding push_group
push_group-IsGroup s [] h = ((greatest-some s [], (refl, tt)), tt)
push_group-IsGroup s ((n, v) ∷ gs) h = elim (Bool-cases (text_eq n s.filename)) [
  | inr differ ↦ rw differ (h.0, push_group-IsGroup s gs h.1)
  | inl same ↦ rw same (
    (
      greatest-append v s,
      All-snoc (λ x. x.filename ≡ n) s v (sym ((text_eq_iff n s.filename).0 same)) h.0.1,
    ),
    h.1,
  )
]

group_from-IsGroup :
    (ss : List DirScatterInode) (gs : Groups) → All IsGroup gs → All IsGroup (group_from gs ss)
unfolding group_from
group_from-IsGroup [] gs h = h
group_from-IsGroup (s ∷ ss) gs h =
    group_from-IsGroup ss (push_group s gs) (push_group-IsGroup s gs h)

find_name-last :
    (name : Text) (gs : Groups)
    → All IsGroup gs
    → find_name name (last_of_groups gs) ≡ greatest (lookup_group name gs)
unfolding last_of_groups lookup_group find_name
find_name-last name [] h = unfold greatest in refl
find_name-last name ((n, v) ∷ gs) h = elim (Option-cases (greatest v)) [
  | inl gap ↦ absurd (h.0.0 gap)
  | inr (t, found) ↦
      let named = greatest-All (λ s. s.filename ≡ n) v t h.0.1 found in
      rw (pop-sort v, last_of_groups, found)
        (subst
          (λ x.
            (if text_eq x name then some t else find_name name (last_of_groups gs))
            ≡ greatest (if text_eq n name then v else lookup_group name gs))
          (sym named) (split (text_eq n name) t (find_name-last name gs h.1) found))
]
  where
    split :
        (b : Bool) (t : DirScatterInode)
        → find_name name (last_of_groups gs) ≡ greatest (lookup_group name gs)
        → greatest v ≡ some t
        → (if b then some t else find_name name (last_of_groups gs))
          ≡ greatest (if b then v else lookup_group name gs)
    split true t ih found = sym found
    split false t ih found = ih

-- `filter_last_view` has an event for a name exactly when the input has one, and it is the
-- greatest of that name by modification time, ulid and key.
pub find_name-filter_last_view :
    (name : Text) (ss : List DirScatterInode)
    → find_name name (filter_last_view ss) ≡ latest name ss
unfolding filter_last_view latest lookup_group
find_name-filter_last_view name ss =
    find_name-last name (group_from [] ss) (group_from-IsGroup ss [] tt)
    ∙ ap greatest (lookup_group-from name ss [])
