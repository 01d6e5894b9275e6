-- ===== src/Ondisk.antt =====
-- src/ondisk.rs and `DirFileEntry::from_raw` of src/file.rs: the entry that the directory's B-tree
-- stores, with its 256-byte name field, and the entry that readers get. `InodeRaw` is hyperfile's:
-- a parameter `I`, with its default. Names and uuids are lists of bytes.
pub mod Utf8
pub mod Names
mod Tests
use hyperdir.Base.{
  ℕ, zero, suc, ◌+◌, ◌-◌, Bool, true, false, ◌&&◌, Option, none, some, List, [], ◌∷◌, ◌++◌, ltb,
  leb, ◌==◌, if◌then◌else◌, length, take, replicate, any, Text, text_eq,
}
use Utf8.{is_utf8}

abbrev pub default_name_len : ℕ
default_name_len = 255

abbrev pub dummy_filename : Text
dummy_filename = replicate default_name_len 0xff ++ 0 ∷ []

pub record DirFileEntryRaw (I : Type 0) : Type 0 where
  pub inode : I
  pub uuid : Text
  pub name : Text

-- `DirFileEntryRaw::from`: a longer name is trimmed to 255 bytes.
unfoldable pub from : {I : Type 0} → I → Text → Text → DirFileEntryRaw I
from inode_raw uuid filename = record {
  inode = inode_raw;
  uuid = uuid;
  name =
      if ltb default_name_len (length filename)
      then take default_name_len filename ++ 0 ∷ []
      else filename ++ replicate (default_name_len + 1 - length filename) 0;
}

unfoldable pub dummy_value : {I : Type 0} → I → DirFileEntryRaw I
dummy_value default_inode = record {
  inode = default_inode;
  uuid = replicate 16 0;
  name = dummy_filename;
}

-- The bytes before the first NUL, or all of them.
unfoldable pub before_nul : Text → Text
before_nul [] = []
before_nul (b ∷ bs) = if b == 0 then [] else b ∷ before_nul bs

-- `CStr::from_bytes_until_nul` succeeds.
unfoldable pub has_nul : Text → Bool
unfolding any
has_nul = any (λ b. b == 0)

module _ {I : Type 0} where
  unfoldable pub is_dummy : DirFileEntryRaw I → Bool
  is_dummy e = text_eq e.name dummy_filename

  unfoldable pub name_bytes : DirFileEntryRaw I → Text
  unfolding before_nul
  name_bytes e = before_nul e.name

  unfoldable pub name_eq : DirFileEntryRaw I → Text → Bool
  unfolding name_bytes
  name_eq e name = text_eq (name_bytes e) name

-- `Inode::from_raw` is hyperfile's: a parameter `inode_of`.
pub record DirFileEntry (J : Type 0) : Type 0 where
  pub inode : J
  pub uuid : Text
  pub name : Text

-- `DirFileEntry::from_raw`: a name with no NUL or that is no UTF-8 reads as the empty name.
unfoldable pub from_raw : {I J : Type 0} → (I → J) → DirFileEntryRaw I → DirFileEntry J
unfolding before_nul has_nul is_utf8
from_raw inode_of raw = record {
  inode = inode_of raw.inode;
  uuid = raw.uuid;
  name = if has_nul raw.name && is_utf8 (before_nul raw.name) then before_nul raw.name else [];
}
