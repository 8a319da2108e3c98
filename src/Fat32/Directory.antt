-- ===== src/Fat32/Directory.antt =====
-- src/fat32.rs, get_file_name and search_file. A directory entry is the bytes of its fields.
use mini_visor_pi.Prelude.{
  ℕ, ◌+◌, Bool, true, false, not, ◌&&◌, ◌||◌, Option, none, some, List, [], ◌∷◌, ◌++◌, bit_and,
  bit_or, leb, ◌==◌, if◌then◌else◌,
}
use mini_visor_pi.Prelude.Bits.{shl}
use mini_visor_pi.Prelude.Utf8.{is_utf8}
use mini_visor_pi.Fat32.{FileInfo}

-- The name's first byte stands apart from the seven others.
pub record DirectoryEntry : Type 0 where
  pub first_byte : ℕ
  pub name_rest : List ℕ
  pub name_extension : List ℕ
  pub attribute : ℕ
  pub starting_cluster_number_high : ℕ
  pub starting_cluster_number : ℕ
  pub file_length : ℕ

unfoldable pub without_spaces : List ℕ → List ℕ
without_spaces [] = []
without_spaces (b ∷ bytes) = let rest = without_spaces bytes in if b == 32 then rest else b ∷ rest

-- The name without a `.` at its end.
unfoldable pub drop_last_dot : List ℕ → List ℕ
drop_last_dot [] = []
drop_last_dot (b ∷ []) = if b == 46 then [] else b ∷ []
drop_last_dot (b ∷ c ∷ bytes) = b ∷ drop_last_dot (c ∷ bytes)

unfoldable pub get_file_name : DirectoryEntry → Option (List ℕ)
unfolding without_spaces drop_last_dot
get_file_name e =
    let first = if e.first_byte == 5 then 229 else e.first_byte in
    let name =
      drop_last_dot
        ((first ∷ without_spaces e.name_rest) ++ (46 ∷ without_spaces e.name_extension)) in
    if is_utf8 name then some name else none

unfoldable pub make_ascii_lowercase : List ℕ → List ℕ
make_ascii_lowercase [] = []
make_ascii_lowercase (b ∷ bytes) =
    (if leb 65 b && leb b 90 then b + 32 else b) ∷ make_ascii_lowercase bytes

unfoldable pub same_name : List ℕ → List ℕ → Bool
same_name [] [] = true
same_name [] (_ ∷ _) = false
same_name (_ ∷ _) [] = false
same_name (a ∷ xs) (b ∷ ys) = let rest = same_name xs ys in (a == b) && rest

unfoldable pub names : DirectoryEntry → List ℕ → Bool
unfolding get_file_name make_ascii_lowercase same_name
names e target_name = elim (get_file_name e) [
  | none ↦ false
  | some name ↦ same_name name target_name || same_name (make_ascii_lowercase name) target_name
]

-- A part of a long name, or a directory.
abbrev pub passed_over : DirectoryEntry → Bool
passed_over e = (bit_and e.attribute 0x3F == 0x0F) || not (bit_and e.attribute 0x10 == 0)

abbrev pub file_info_of : DirectoryEntry → FileInfo
file_info_of e = record {
  entry_cluster = bit_or (shl 32 e.starting_cluster_number_high 16) e.starting_cluster_number;
  file_size = e.file_length;
  walk_hint = 0;
}

unfoldable pub search_file : List DirectoryEntry → List ℕ → Option FileInfo
unfolding names
search_file [] target_name = none
search_file (e ∷ entries) target_name =
    let rest = search_file entries target_name in
    if passed_over e
    then rest
    else if e.first_byte == 0
    then none
    else if e.first_byte == 229
    then rest
    else if names e target_name
    then some (file_info_of e)
    else rest
