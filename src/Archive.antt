-- ===== src/Archive.antt =====
-- packages/nexarm_service/src/nexarm_service/archive.py: the extraction of an archive that another
-- machine sent. The archive is its members, in order, as `tarfile` reads them; `parts` stands for
-- `Path(name).parts`. A size below 0 counts as 0, so sizes are natural numbers.
pub mod Laws
mod Tests
use lerobot_nexarm.Prelude.{
  ℕ, ◌+◌, Bool, true, false, not, ◌&&◌, ◌||◌, List, [], ◌∷◌, ◌++◌, Option, none, some, ltb, ◌==◌,
  if◌then◌else◌,
}
use lerobot_nexarm.Prelude.Texts.{Text, codes, same_text}

pub data Kind : Type 0 where
  regular directory link : Kind

-- `is_broken` tells that `tar.extract` raises on it.
pub record Member : Type 0 where
  pub name : Text
  pub kind : Kind
  pub size : ℕ
  pub is_broken : Bool

-- A path under a directory, by its parts.
abbrev pub Files : Type 0
Files = List (List Text)

abbrev pub is_rooted : Text → Bool
is_rooted [] = false
is_rooted (c ∷ cs) = c == b'/' || c == b'\\'

abbrev pub has_up : List Text → Bool
has_up [] = false
has_up (p ∷ ps) = if same_text p (codes "..") then true else has_up ps

abbrev pub has_colon : Text → Bool
has_colon [] = false
has_colon (c ∷ cs) = if c == b':' then true else has_colon cs

abbrev pub has_drive : List Text → Bool
has_drive [] = false
has_drive (p ∷ ps) = has_colon p

abbrev pub is_file_or_dir : Kind → Bool
is_file_or_dir regular = true
is_file_or_dir directory = true
is_file_or_dir link = false

-- `_check_member`; false for the `ArchiveError`.
pub check_member : (Text → List Text) → Member → Bool
check_member parts m =
    let ps = parts m.name in
    not (is_rooted m.name || has_up ps || has_drive ps) && is_file_or_dir m.kind

-- Where the operating system puts a path that is taken from a directory.
pub resolve : List Text → List Text → List Text
resolve base [] = base
resolve base (p ∷ ps) =
    resolve (if same_text p (codes "..") then parent base else base ++ p ∷ []) ps
  where
    parent : List Text → List Text
    parent [] = []
    parent (b ∷ []) = []
    parent (b ∷ c ∷ bs) = b ∷ parent (c ∷ bs)

-- The place of a member that is extracted to a directory: an absolute path, or one with a drive,
-- leaves the directory for the root.
pub target : (Text → List Text) → List Text → Member → List Text
unfolding resolve
target parts base m =
    let ps = parts m.name in
    if is_rooted m.name || has_drive ps then resolve [] ps else resolve base ps

-- The staging directory and the bytes so far; none for an `ArchiveError`.
pub extract_members :
    (Text → List Text) → List Text → ℕ → Bool → List Member → ℕ → Files → Option (ℕ × Files)
unfolding check_member target
extract_members parts staging max_bytes is_cut [] total files =
    if is_cut then none else some (total, files)
extract_members parts staging max_bytes is_cut (m ∷ ms) total files =
    let rest =
      extract_members parts staging max_bytes is_cut ms (total + m.size)
        (files ++ target parts staging m ∷ []) in
    if check_member parts m
    then if ltb max_bytes (total + m.size) then none else if m.is_broken then none else rest
    else none

-- What is returned, none for an `ArchiveError` or the error of the move, and the files of the
-- destination after it, none where it is not there.
pub record Extracted : Type 0 where
  pub result : Option ℕ
  pub destination : Option Files

-- `extract`; `is_cut` tells that reading on fails after the members, `moves` that the move succeeds.
-- The staging directory is removed on every way out.
pub extract :
    (Text → List Text) → List Text → ℕ → Bool → Bool → List Member → Option Files → Extracted
unfolding extract_members
extract parts staging max_bytes is_cut moves ms destination = elim destination [
  | some files ↦ record { result = none; destination = some files }
  | none ↦ elim (extract_members parts staging max_bytes is_cut ms 0 []) [
    | none ↦ record { result = none; destination = none }
    | some (total, files) ↦
        if moves
        then record { result = some total; destination = some files }
        else record { result = none; destination = none }
  ]
]
