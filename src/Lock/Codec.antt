-- ===== src/Lock/Codec.antt =====
-- The text of a lock table (`encode` and `decode` of src/lock.rs): a header line, then one line of
-- six tab-separated fields for each entry. What does not parse is left out.
pub mod RoundTrip
use hyperdir.Base.{
  ℕ, ◌-◌, ◌^◌, Option, none, some, List, [], ◌∷◌, ◌++◌, drop, ◌==◌, if◌then◌else◌, Text, codes,
}
use hyperdir.Ondisk.Utf8.{is_utf8}
use hyperdir.Wire.{newline, tab, decimal, decimal_i64, parse_uint, parse_i64, lines, split}
use hyperdir.Lock.{LockKind, read, write, unlock, Entry, LockTable, default}

unfoldable pub as_char : LockKind → ℕ
as_char read = 82
as_char write = 87
as_char unlock = 85

unfoldable pub from_char : ℕ → Option LockKind
from_char c = if c == 82 then some read else if c == 87 then some write else none

-- The line of one entry, without its end.
unfoldable pub entry_line : Entry → Text
unfolding as_char decimal decimal_i64
entry_line e =
    e.owner
    ++ (tab
        ∷ as_char e.kind
        ∷ tab
        ∷ (decimal e.start
            ++ (tab
                ∷ (decimal e.end ++ (tab ∷ (decimal e.pid ++ (tab ∷ decimal_i64 e.expire_ms)))))))

unfoldable pub encode_entries : List Entry → Text
unfolding entry_line
encode_entries [] = []
encode_entries (e ∷ es) = entry_line e ++ (newline ∷ encode_entries es)

unfoldable pub encode : LockTable → Text
unfolding encode_entries
encode t = codes "v1\n" ++ encode_entries t.entries

-- The first character of a field. A byte of a longer character is no lock's letter.
unfoldable pub kind_of_field : Text → Option LockKind
unfolding from_char
kind_of_field [] = none
kind_of_field (c ∷ cs) = from_char c

infixl 5 ◌>>=◌
abbrev ◌>>=◌ : {A B : Type 0} → Option A → (A → Option B) → Option B
none >>= f = none
some a >>= f = f a

-- The entry that a line of six fields stands for.
unfoldable pub decode_fields : List Text → Option Entry
unfolding kind_of_field parse_uint parse_i64
decode_fields (owner ∷ kind_field ∷ start_field ∷ end_field ∷ pid_field ∷ expire_field ∷ []) = do
  kind ← kind_of_field kind_field
  first ← parse_uint (2 ^ 64 - 1) start_field
  last ← parse_uint (2 ^ 64 - 1) end_field
  pid ← parse_uint (2 ^ 32 - 1) pid_field
  expire_ms ← parse_i64 expire_field
  some (record {
    owner = owner;
    kind = kind;
    start = first;
    end = last;
    pid = pid;
    expire_ms = expire_ms;
  })
decode_fields _ = none

-- A line that does not parse is passed over.
abbrev pub keep : Option Entry → List Entry → List Entry
keep none es = es
keep (some e) es = e ∷ es

unfoldable pub decode_lines : List Text → List Entry
unfolding decode_fields split
decode_lines [] = []
decode_lines (line ∷ rest) = keep (decode_fields (split tab line)) (decode_lines rest)

unfoldable pub decode : Text → LockTable
unfolding decode_lines lines is_utf8
decode buf = if is_utf8 buf then record { entries = decode_lines (drop 1 (lines buf)) } else default
