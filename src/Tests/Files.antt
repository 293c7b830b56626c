-- ===== src/Tests/Files.antt =====
-- Paths and archives, at concrete inputs.
use layer7_operator.Prelude.{
  String, List, [], ◌∷◌, ◌≡◌, refl, All, true, false, value, ok, err, Error, arith, eq_iff,
}
use layer7_operator.Prelude.Split.{split}
use layer7_operator.Files.Path.{slash, clean, join_path, dir, render, walk, resolve, back}
use layer7_operator.Files.Path.Climbs.{IsName}
use layer7_operator.Files.Unzip.{
  Entry, Disk, is_below, unzip, unzip_entries, extract, make_file, make_folder, copy_and_close,
}
use layer7_operator.Files.Unzip.Confined.{IsBelow, IsKept, unzip-confined}

clean_tests :
    (clean "a/../../b//./c/" ≡ "../b/c")
    × (clean "/../a" ≡ "/a")
    × (clean "" ≡ ".")
    × (dir "/a/b" ≡ "/a")
    × (dir "a" ≡ ".")
unfolding dir clean render walk resolve back split
clean_tests = (refl, refl, refl, refl, refl)

-- A target above the working directory lets an entry out of it; the working directory takes none.
outside_tests :
    (is_below ".." (join_path ".." "../x") ≡ true) × (is_below "." (join_path "." "x") ≡ false)
unfolding join_path clean render walk resolve back split
outside_tests = (refl, refl)

-- A disk that keeps the paths of the files that were opened.
record Log : Type 0 where
  archive : List Entry
  opened : List String

abbrev log_disk : Disk
log_disk = record {
  State = Log;
  open_reader = λ src s. value s.archive;
  mkdir_all = λ path s. (ok tt, s);
  open_file = λ path mode s. (ok tt, record s { opened = path ∷ s.opened });
  open_entry = λ entry s. (ok tt, s);
  copy = λ path entry s. (ok tt, s);
  close_file = λ path s. s;
  close_entry = λ entry s. s;
}

abbrev crafted : Log
crafted = record {
  archive =
      record { name = "lib/"; is_dir = true; mode = 493 }
      ∷ record { name = "lib/a.jar"; is_dir = false; mode = 420 }
      ∷ record { name = "../../etc/passwd"; is_dir = false; mode = 420 }
      ∷ [];
  opened = [];
}

unzip_test : unzip log_disk "a.zip" "/tmp/out" crafted ≡ (
  ("/tmp/out/lib" ∷ "/tmp/out/lib/a.jar" ∷ [], err (Error.other "/etc/passwd: illegal file path")),
  record crafted { opened = "/tmp/out/lib/a.jar" ∷ [] },
)
unfolding unzip unzip_entries extract make_file make_folder copy_and_close join_path dir clean
    render walk resolve back split
unzip_test = refl

target_names : All IsName (split slash (clean "/tmp/out"))
unfolding clean render walk resolve split
target_names = (
  ground (arith, eq_iff "" ".."),
  (ground (arith, eq_iff "tmp" ".."), (ground (arith, eq_iff "out" ".."), tt)),
)

opened-IsKept : IsKept log_disk "/tmp/out" (λ s. All (IsBelow "/tmp/out") s.opened)
opened-IsKept = record {
  mkdir_all = λ path s below h. h;
  mkdir_all-dir = λ path s below h. h;
  open_file = λ path mode s below h. (below, h);
  open_entry = λ entry s h. h;
  copy = λ path entry s below h. h;
  close_file = λ path s below h. h;
  close_entry = λ entry s h. h;
}

unzip-confined_example :
    All (IsBelow "/tmp/out") (unzip log_disk "a.zip" "/tmp/out" crafted).0.0
    × All (IsBelow "/tmp/out") (unzip log_disk "a.zip" "/tmp/out" crafted).1.opened
unzip-confined_example =
    unzip-confined log_disk "a.zip" "/tmp/out" (λ s. All (IsBelow "/tmp/out") s.opened) crafted
      target_names opened-IsKept tt
