-- ===== src/Base/Results.antt =====
-- `std::io::Result`: the error kinds that the code tells apart, and the chain of fallible steps.

pub data ErrorKind : Type 0 where
  not_found already_exists invalid_input invalid_data resource_busy : ErrorKind
  directory_not_empty read_only_filesystem interrupted other : ErrorKind

pub data Result {ℓ} (A : Type ℓ) : Type ℓ where
  ok : A → Result A
  err : ErrorKind → Result A

infixl 5 ◌>>=◌
abbrev pub ◌>>=◌ {ℓ κ} : {A : Type ℓ} {B : Type κ} → Result A → (A → Result B) → Result B
err e >>= step = err e
ok a >>= step = step a
