-- ===== src/Log/Files.antt =====
-- The laws of a file system that the proofs on src/middleware/storage/log_manager.cpp use, and a file
-- system that meets them: a dictionary from paths to texts.
use iot_dev_sys.Common.{
  String, true, ◌≡◌, ◌≢◌, refl, Option, none, some, ◌==◌, if◌then◌else◌, inl, inr, Option-cases,
}
use iot_dev_sys.Common.Text.{append}
use iot_dev_sys.Common.Dict.{Dict, lookup, put, without, lookup-put, lookup-without}
use iot_dev_sys.Log.{FileSystem, or_none}

-- What opening, writing at the end, renaming and removing do to the text at each path. A file that is
-- opened for appending is made if it is not there.
pub record IsLawful (F : FileSystem) : Type 0 where
  pub read-open_file :
      (s : F.State) (p j : String)
      → (F.open_file s p).0 ≡ true
      → F.read (F.open_file s p).1 j ≡ (if p == j then some (or_none (F.read s p)) else F.read s j)
  pub read-write_end :
      (s : F.State) (p t j : String)
      → F.read (F.write_end s p t) j
        ≡ (if p == j then some (append (or_none (F.read s p)) t) else F.read s j)
  pub read-rename :
      (s : F.State) (p q j : String)
      → F.read s p ≢ none
      → F.read (F.rename s p q) j
        ≡ (if q == j then F.read s p else if p == j then none else F.read s j)
  pub read-remove :
      (s : F.State) (p j : String) → F.read (F.remove s p) j ≡ (if p == j then none else F.read s j)

abbrev move_text : Dict String → String → String → Option String → Dict String
move_text m p q none = m
move_text m p q (some t) = put q t (without p m)

-- Every directory is there, and every file can be opened.
abbrev pub memory : FileSystem
memory = record {
  State = Dict String;
  read = λ m p. lookup p m;
  has_directory = λ m d. true;
  create_directories = λ m d. (true, m);
  open_file = λ m p. (true, put p (or_none (lookup p m)) m);
  write_end = λ m p t. put p (append (or_none (lookup p m)) t) m;
  rename = λ m p q. move_text m p q (lookup p m);
  remove = λ m p. without p m;
}

lookup-move_text :
    (m : Dict String) (p q j : String)
    → lookup p m ≢ none
    → lookup j (move_text m p q (lookup p m))
      ≡ (if q == j then lookup p m else if p == j then none else lookup j m)
lookup-move_text m p q j h = elim (Option-cases (lookup p m)) [
  | inl miss ↦ absurd (h miss)
  | inr (t, hit) ↦ rw hit (rw lookup-put (rw lookup-without refl))
]

pub memory-IsLawful : IsLawful memory
memory-IsLawful = record {
  read-open_file = λ m p j h. lookup-put p j (or_none (lookup p m)) m;
  read-write_end = λ m p t j. lookup-put p j (append (or_none (lookup p m)) t) m;
  read-rename = lookup-move_text;
  read-remove = λ m p j. lookup-without p j m;
}
