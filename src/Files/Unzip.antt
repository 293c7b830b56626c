-- ===== src/Files/Unzip.antt =====
-- `Unzip` of pkg/gateway/util/zip.go.
pub mod Confined
use layer7_operator.Prelude.{
  ℕ, String, ◌<>◌, Bool, true, false, not, List, [], ◌∷◌, ◌++◌, Option, none, some, Error, Result,
  value, failure, Outcome, ok, err, panic, starts_with, if◌then◌else◌,
}
use layer7_operator.Prelude.Exec.{Exec, ◌>>=◌, ◌>>◌, lift}
use layer7_operator.Files.Path.{clean, join_path, dir}

-- An entry of an archive: its name, whether its mode says that it is a directory, and its mode.
pub record Entry : Type 0 where
  pub name : String
  pub is_dir : Bool
  pub mode : ℕ

-- What the function calls of os, io and archive/zip. A file that is open for writing is told by its path,
-- and the content of an entry by the entry.
pub record Disk : Type 1 where
  pub State : Type 0
  pub open_reader : String → State → Result (List Entry)
  pub mkdir_all : String → Exec State (Unit {0})
  -- `os.OpenFile` with the flags to write, to create and to truncate
  pub open_file : String → ℕ → Exec State (Unit {0})
  pub open_entry : Entry → Exec State (Unit {0})
  -- `io.Copy` to the file
  pub copy : String → Entry → Exec State (Unit {0})
  pub close_file : String → State → State
  pub close_entry : Entry → State → State

-- The check against paths that leave the target.
abbrev pub is_below : String → String → Bool
is_below dest path = starts_with path (clean dest <> "/")

module _ (D : Disk) where
  -- The copy, and both files closed whatever comes of it.
  unfoldable pub copy_and_close : String → Entry → Exec D.State (Unit {0})
  copy_and_close path entry s =
      let (copied, s') = D.copy path entry s in (copied, D.close_entry entry (D.close_file path s'))

  -- A file, with the directory that it is in.
  unfoldable pub make_file : String → Entry → Exec D.State (Unit {0})
  unfolding copy_and_close
  make_file path entry = do
    D.mkdir_all (dir path)
    D.open_file path entry.mode
    D.open_entry entry
    copy_and_close path entry

  -- A directory. An error is passed over.
  unfoldable pub make_folder : String → Exec D.State (Unit {0})
  make_folder path s = (ok tt, (D.mkdir_all path s).1)

  unfoldable pub extract : String → Entry → Exec D.State (Unit {0})
  unfolding make_file make_folder
  extract path entry = if entry.is_dir then make_folder path else make_file path entry

  -- The paths so far, and what is returned: the paths with an error or without one.
  abbrev pub Extracted : Type 0
  Extracted = (List String × Outcome (Unit {0})) × D.State

  -- The rest of the loop, unless the entry failed.
  abbrev pub and_then :
      Outcome (Unit {0}) × D.State → List String → (D.State → Extracted) → Extracted
  and_then (ok u, s) paths rest = rest s
  and_then (err e, s) paths rest = ((paths, err e), s)
  and_then (panic, s) paths rest = ((paths, panic), s)

  unfoldable pub unzip_entries : String → List String → List Entry → D.State → Extracted
  unfolding extract
  unzip_entries dest paths [] s = ((paths, ok tt), s)
  unzip_entries dest paths (entry ∷ entries) s =
      let path = join_path dest entry.name in
      let rest = unzip_entries dest (paths ++ path ∷ []) entries in
      if is_below dest path
      then and_then (extract path entry s) (paths ++ path ∷ []) rest
      else ((paths, err (Error.other (path <> ": illegal file path"))), s)

  -- What follows the opening of the archive.
  abbrev pub unzip_read : String → Result (List Entry) → D.State → Extracted
  unzip_read dest (value entries) s = unzip_entries dest [] entries s
  unzip_read dest (failure e) s = (([], err e), s)

  unfoldable pub unzip : String → String → D.State → Extracted
  unfolding unzip_entries
  unzip src dest s = unzip_read dest (D.open_reader src s) s
