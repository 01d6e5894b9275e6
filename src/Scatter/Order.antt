-- ===== src/Scatter/Order.antt =====
-- The order of scatter events, and what sorting and popping by it gives: the greatest event.
use hyperdir.Base.{
  true, false, ◌||◌, ◌≡◌, refl, sym, ◌∙◌, inl, inr, Option, none, some, List, [], ◌∷◌,
  if◌then◌else◌, arith, Text, Bool-cases, All,
}
use mathlib.Core.Option.{none-ne-some, some-injective}
use hyperdir.Scatter.{DirScatterInode, text_lt, before, insert_sorted, sort, pop}

text_lt_cotrans : (a b c : Text) → text_lt a b ≡ true → (text_lt a c || text_lt c b) ≡ true
unfolding text_lt
text_lt_cotrans [] [] c h = cc
text_lt_cotrans [] (y ∷ b) [] h = refl
text_lt_cotrans [] (y ∷ b) (z ∷ c) h = refl
text_lt_cotrans (x ∷ a) [] c h = cc
text_lt_cotrans (x ∷ a) (y ∷ b) [] h = refl
text_lt_cotrans (x ∷ a) (y ∷ b) (z ∷ c) h = ground (arith, text_lt_cotrans a b c)

-- If `a` comes before `b`, then any `c` comes after `a` or before `b`.
pub before_cotrans :
    (a b c : DirScatterInode) → before a b ≡ true → (before a c || before c b) ≡ true
unfolding before
before_cotrans a b c h = ground (arith, text_lt_cotrans a.key b.key c.key)

text_lt_asymm : (a b : Text) → text_lt a b ≡ true → text_lt b a ≡ false
unfolding text_lt
text_lt_asymm [] [] h = refl
text_lt_asymm [] (y ∷ b) h = refl
text_lt_asymm (x ∷ a) [] h = cc
text_lt_asymm (x ∷ a) (y ∷ b) h = ground (arith, text_lt_asymm a b)

pub before_asymm : (a b : DirScatterInode) → before a b ≡ true → before b a ≡ false
unfolding before
before_asymm a b h = ground (arith, text_lt_asymm a.key b.key)

pub before_irrefl : (a : DirScatterInode) → before a a ≡ false
before_irrefl a = ground (arith, before_asymm a a)

-- The greatest event, the last of several equal ones.
unfoldable pub greatest : List DirScatterInode → Option DirScatterInode
greatest [] = none
greatest (s ∷ ss) = elim (greatest ss) [
  | none ↦ some s
  | some t ↦ if before t s then some s else some t
]

-- `t` is the last of the list, and no event of the list comes after it.
pub record Top (t : DirScatterInode) (ss : List DirScatterInode) : Type 0 where
  pub popped : pop ss ≡ some t
  pub highest : All (λ s. before t s ≡ false) ss

abbrev later : DirScatterInode → DirScatterInode → DirScatterInode
later t s = if before t s then s else t

pop-cons :
    (x s : DirScatterInode) (ss : List DirScatterInode)
    → pop (x ∷ insert_sorted s ss) ≡ pop (insert_sorted s ss)
unfolding insert_sorted pop
pop-cons x s [] = refl
pop-cons x s (t ∷ ts) = ground arith

Top-here :
    (t x s : DirScatterInode) (ss : List DirScatterInode)
    → Top t (x ∷ ss)
    → before x s ≡ false
    → (before t s ≡ false) × Top t (s ∷ x ∷ ss)
Top-here t x s ss h stays =
    let low : before t s ≡ false = ground (arith, before_cotrans t s x, h.highest.0) in
    (low, record { popped = unfold pop in h.popped; highest = (low, h.highest) })

Top-pair : (x s : DirScatterInode) → Top (later x s) (insert_sorted s (x ∷ []))
unfolding insert_sorted pop
Top-pair x s = elim (Bool-cases (before x s)) [
  | inl moves ↦
      rw moves (record { popped = refl; highest = (before_asymm x s moves, (before_irrefl s, tt)) })
  | inr stays ↦ rw stays (record { popped = refl; highest = (stays, (before_irrefl x, tt)) })
]

Top-insert :
    (t s : DirScatterInode) (ss : List DirScatterInode)
    → Top t ss
    → Top (later t s) (insert_sorted s ss)
unfolding insert_sorted pop
Top-insert t s [] h = absurd (none-ne-some t h.popped)
Top-insert t s (x ∷ []) h = rw (← some-injective x t h.popped) (Top-pair x s)
Top-insert t s (x ∷ y ∷ ss) h = elim (Bool-cases (before x s)) [
  | inr stays ↦ let (low, top) = Top-here t x s (y ∷ ss) h stays in rw (stays, low) top
  | inl moves ↦
      let top = Top-insert t s (y ∷ ss) (record { popped = h.popped; highest = h.highest.1 }) in
      rw moves (record {
        popped = pop-cons x s (y ∷ ss) ∙ top.popped;
        highest = (ground (arith, before_asymm x s, h.highest.0), top.highest);
      })
]

Top-one : (s : DirScatterInode) → Top s (s ∷ [])
unfolding pop
Top-one s = record { popped = refl; highest = (before_irrefl s, tt) }

-- Sorting and popping gives the greatest event, and no event comes after it.
pub Top-sort :
    (s : DirScatterInode) (ss : List DirScatterInode)
    → (t : DirScatterInode) × (greatest (s ∷ ss) ≡ some t) × Top t (sort (s ∷ ss))
unfolding greatest sort
Top-sort s [] = (s, refl, unfold insert_sorted in Top-one s)
Top-sort s (x ∷ ss) =
    let (t, found, top) = Top-sort x ss in
    (later t s, greatest-cons s (x ∷ ss) t found, Top-insert t s (sort (x ∷ ss)) top)
  where
    greatest-cons :
        (s : DirScatterInode) (ss : List DirScatterInode) (t : DirScatterInode)
        → greatest ss ≡ some t
        → greatest (s ∷ ss) ≡ some (later t s)
    greatest-cons s ss t e = ground arith

pub pop-sort : (ss : List DirScatterInode) → pop (sort ss) ≡ greatest ss
pop-sort [] = unfold pop sort greatest in refl
pop-sort (s ∷ ss) = let (t, found, top) = Top-sort s ss in top.popped ∙ sym found
