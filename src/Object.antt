-- ===== src/Object.antt =====
-- The object store: the calls of aws-sdk-s3's client that the code makes, a parameter of the model,
-- and what the code relies on of conditional writes.
pub mod Single
use hyperdir.Base.{◌≡◌, ◌≢◌, Option, none, some, Text}

-- `if_match`, `if_none_match("*")`, or neither.
pub data Condition : Type 0 where
  always absent : Condition
  matching : Text → Condition

pub data GetAnswer : Type 0 where
  -- body and ETag
  body : Text → Text → GetAnswer
  no_such_key get_failed : GetAnswer

-- `refused` is a 412 or a 409.
pub data PutAnswer : Type 0 where
  stored : Text → PutAnswer
  refused put_failed : PutAnswer

pub data DeleteAnswer : Type 0 where
  removed mismatch delete_failed : DeleteAnswer

-- A client over the states `W` of the store.
pub record Client (W : Type 0) : Type 0 where
  pub get_object : W → Text → GetAnswer
  pub put_object : W → Text → Text → Condition → W × PutAnswer
  pub delete_object : W → Text → Condition → W × DeleteAnswer

-- The documented behaviour: a get shows the object with its ETag, a conditional put takes effect
-- only on the object that it names, and an ETag names one body.
pub record IsStore {W : Type 0} (c : Client W) : Type 0 where
  pub content : W → Text → Option (Text × Text)
  pub get_body :
      (w : W) (key bytes tag : Text)
      → c.get_object w key ≡ body bytes tag
      → content w key ≡ some (bytes, tag)
  pub get_none : (w : W) (key : Text) → c.get_object w key ≡ no_such_key → content w key ≡ none
  pub put_matching :
      (w w' : W) (key bytes tag new_tag : Text)
      → c.put_object w key bytes (matching tag) ≡ (w', stored new_tag)
      → (old : Text) × (content w key ≡ some (old, tag)) × (content w' key ≡ some (bytes, new_tag))
  pub put_absent :
      (w w' : W) (key bytes new_tag : Text)
      → c.put_object w key bytes absent ≡ (w', stored new_tag)
      → (content w key ≡ none) × (content w' key ≡ some (bytes, new_tag))
  pub etag_names :
      (v w : W) (key a b tag : Text)
      → content v key ≡ some (a, tag)
      → content w key ≡ some (b, tag)
      → a ≡ b
  pub delete_matching :
      (w w' : W) (key bytes tag mine : Text) (answer : DeleteAnswer)
      → content w key ≡ some (bytes, tag)
      → tag ≢ mine
      → c.delete_object w key (matching mine) ≡ (w', answer)
      → content w' key ≡ some (bytes, tag)
