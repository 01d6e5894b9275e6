-- ===== src/Object/Single.antt =====
-- A store of one object, whose ETag is its body: it shows that the behaviour asked of a client can
-- hold.
use hyperdir.Base.{
  ◌≡◌, ◌≢◌, refl, sym, ◌∙◌, Option, none, some, if◌then◌else◌, Text, text_eq, text_eq_iff,
  Bool-cases, inl, inr,
}
use hyperdir.Object.{
  Condition, always, absent, matching, GetAnswer, body, no_such_key, PutAnswer, stored, refused,
  DeleteAnswer, removed, mismatch, Client, IsStore,
}

abbrev pub Store : Type 0
Store = Option Text

abbrev pub content : Store → Option (Text × Text)
content none = none
content (some b) = some (b, b)

abbrev pub get : Store → GetAnswer
get none = no_such_key
get (some b) = body b b

abbrev pub put : Store → Text → Condition → Store × PutAnswer
put w bytes always = (some bytes, stored bytes)
put none bytes absent = (some bytes, stored bytes)
put (some b) bytes absent = (some b, refused)
put none bytes (matching tag) = (none, refused)
put (some b) bytes (matching tag) =
    if text_eq b tag then (some bytes, stored bytes) else (some b, refused)

abbrev pub delete : Store → Condition → Store × DeleteAnswer
delete w always = (none, removed)
delete none absent = (none, removed)
delete (some b) absent = (some b, mismatch)
delete none (matching tag) = (none, mismatch)
delete (some b) (matching tag) = if text_eq b tag then (none, removed) else (some b, mismatch)

abbrev pub single_client : Client Store
single_client = record {
  get_object = λ w key. get w;
  put_object = λ w key bytes condition. put w bytes condition;
  delete_object = λ w key condition. delete w condition;
}

put_there :
    (w w' : Store) (bytes tag new_tag : Text)
    → put w bytes (matching tag) ≡ (w', stored new_tag)
    → (old : Text) × (content w ≡ some (old, tag)) × (content w' ≡ some (bytes, new_tag))
put_there none w' bytes tag new_tag h = cc
put_there (some b) w' bytes tag new_tag h = elim (Bool-cases (text_eq b tag)) [
  | inl same ↦ (b, cc ((text_eq_iff b tag).0 same), cc (rw same at h))
  | inr differ ↦ cc (rw differ at h)
]

put_new :
    (w w' : Store) (bytes new_tag : Text)
    → put w bytes absent ≡ (w', stored new_tag)
    → (content w ≡ none) × (content w' ≡ some (bytes, new_tag))
put_new none w' bytes new_tag h = (refl, cc)
put_new (some b) w' bytes new_tag h = cc

tag_is_body : (w : Store) (a tag : Text) → content w ≡ some (a, tag) → a ≡ tag
tag_is_body none a tag h = cc
tag_is_body (some b) a tag h = cc

delete_other :
    (w w' : Store) (bytes tag mine : Text) (answer : DeleteAnswer)
    → content w ≡ some (bytes, tag)
    → tag ≢ mine
    → delete w (matching mine) ≡ (w', answer)
    → content w' ≡ some (bytes, tag)
delete_other none w' bytes tag mine answer h differ d = cc
delete_other (some b) w' bytes tag mine answer h differ d = elim (Bool-cases (text_eq b mine)) [
  | inl same ↦ absurd (differ (is_tag h ∙ (text_eq_iff b mine).0 same))
  | inr apart ↦ left (rw apart at d) ∙ h
]
  where
    is_tag : content (some b) ≡ some (bytes, tag) → tag ≡ b
    is_tag q = cc

    left :
        ◌≡◌ {A = Store × DeleteAnswer} (some b, mismatch) (w', answer)
        → content w' ≡ content (some b)
    left q = cc

pub single_client-IsStore : IsStore single_client
single_client-IsStore = record {
  content = λ w key. content w;
  get_body = λ w key bytes tag h. got w bytes tag h;
  get_none = λ w key h. missing w h;
  put_matching = λ w w' key bytes tag new_tag h. put_there w w' bytes tag new_tag h;
  put_absent = λ w w' key bytes new_tag h. put_new w w' bytes new_tag h;
  etag_names = λ v w key a b tag x y. tag_is_body v a tag x ∙ sym (tag_is_body w b tag y);
  delete_matching = λ w w' key bytes tag mine answer h differ d.
      delete_other w w' bytes tag mine answer h differ d;
}
  where
    got : (w : Store) (bytes tag : Text) → get w ≡ body bytes tag → content w ≡ some (bytes, tag)
    got none bytes tag h = cc
    got (some b) bytes tag h = cc

    missing : (w : Store) → get w ≡ no_such_key → content w ≡ none
    missing none h = refl
    missing (some b) h = cc

pub single_client-content :
    (w : Store) (key : Text) → single_client-IsStore.content w key ≡ content w
unfolding single_client-IsStore
single_client-content w key = refl
