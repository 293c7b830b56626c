-- ===== src/Files/Unzip/Confined.antt =====
-- What `Unzip` of pkg/gateway/util/zip.go writes to.
use layer7_operator.Prelude.{
  ℕ, String, ◌<>◌, Bool, true, false, List, [], ◌∷◌, ◌++◌, Result, value, failure, Outcome, ok, err,
  panic, if◌then◌else◌, All, All-append, ◌≡◌, Bool-cases, inl, inr, sym, ◌∙◌,
}
use text.Mathlib.TextEquality.{starts_with_iff}
use text.Mathlib.TextLemmas.{append_assoc}
use layer7_operator.Prelude.Exec.{Exec, proceed, ◌>>◌}
use layer7_operator.Prelude.Split.{split}
use layer7_operator.Files.Path.{slash, clean, join_path, dir}
use layer7_operator.Files.Path.Climbs.{IsName, split-join_path, split-behind}
use layer7_operator.Files.Unzip.{
  Entry, Disk, copy_and_close, make_file, make_folder, extract, is_below, Extracted, and_then,
  unzip_entries, unzip_read, unzip,
}

-- A path below the target: what follows the target has no "..".
abbrev pub IsBelow : String → String → Type 0
IsBelow dest path =
    (behind : String) × (path ≡ clean dest <> ("/" <> behind)) × All IsName (split slash behind)

-- A path that passes the check is below the target, if the target has no "..".
pub is_below-IsBelow :
    (dest name : String)
    → All IsName (split slash (clean dest))
    → is_below dest (join_path dest name) ≡ true
    → IsBelow dest (join_path dest name)
is_below-IsBelow dest name target h =
    let (behind, e) = (starts_with_iff (join_path dest name) (clean dest <> "/")).0 h in
    let e' = sym e ∙ append_assoc (clean dest) "/" behind in
    (
      behind,
      e',
      split-behind (join_path dest name) (clean dest) behind (split-join_path dest name) e' target,
    )

module _ (D : Disk) where
  -- A property of the disk that the calls keep, where each is about a path below the target, or about the
  -- directory that such a path is in.
  pub record IsKept (dest : String) (Keep : D.State → Type 0) : Type 0 where
    pub mkdir_all :
        (path : String) (s : D.State) → IsBelow dest path → Keep s → Keep (D.mkdir_all path s).1
    pub mkdir_all-dir :
        (path : String) (s : D.State)
        → IsBelow dest path
        → Keep s
        → Keep (D.mkdir_all (dir path) s).1
    pub open_file :
        (path : String) (mode : ℕ) (s : D.State)
        → IsBelow dest path
        → Keep s
        → Keep (D.open_file path mode s).1
    pub open_entry : (entry : Entry) (s : D.State) → Keep s → Keep (D.open_entry entry s).1
    pub copy :
        (path : String) (entry : Entry) (s : D.State)
        → IsBelow dest path
        → Keep s
        → Keep (D.copy path entry s).1
    pub close_file :
        (path : String) (s : D.State) → IsBelow dest path → Keep s → Keep (D.close_file path s)
    pub close_entry : (entry : Entry) (s : D.State) → Keep s → Keep (D.close_entry entry s)

  module _ (dest : String) (Keep : D.State → Type 0) (kept : IsKept dest Keep) where
    abbrev Keeps : Exec D.State (Unit {0}) → Type 0
    Keeps m = (s : D.State) → Keep s → Keep (m s).1

    >>-Keeps : (m k : Exec D.State (Unit {0})) → Keeps m → Keeps k → Keeps (m >> k)
    >>-Keeps m k first second s h = by_outcome (m s).0 (m s).1 (first s h)
      where
        by_outcome : (r : Outcome (Unit {0})) (t : D.State) → Keep t → Keep (proceed r t (λ _. k)).1
        by_outcome (ok u) t h' = second t h'
        by_outcome (err e) t h' = h'
        by_outcome panic t h' = h'

    make_file-Keeps :
        (path : String) (entry : Entry) → IsBelow dest path → Keeps (make_file D path entry)
    unfolding make_file copy_and_close
    make_file-Keeps path entry below =
        let close : Exec D.State (Unit {0}) = copy_and_close D path entry in
        let fill : Exec D.State (Unit {0}) = D.open_entry entry >> close in
        let create : Exec D.State (Unit {0}) = D.open_file path entry.mode >> fill in
        >>-Keeps (D.mkdir_all (dir path)) create (λ s. kept.mkdir_all-dir path s below)
          (>>-Keeps (D.open_file path entry.mode) fill (λ s. kept.open_file path entry.mode s below)
            (>>-Keeps (D.open_entry entry) close (kept.open_entry entry) (λ s h.
              kept.close_entry entry _
                (kept.close_file path _ below (kept.copy path entry s below h)))))

    extract-Keep :
        (path : String) (entry : Entry) (s : D.State)
        → IsBelow dest path
        → Keep s
        → Keep (extract D path entry s).1
    unfolding extract make_folder
    extract-Keep path entry s below h = by_kind entry.is_dir
      where
        by_kind :
            (is_dir : Bool)
            → Keep ((if is_dir then make_folder D path else make_file D path entry) s).1
        by_kind true = kept.mkdir_all path s below h
        by_kind false = make_file-Keeps path entry below s h

    and_then-Keep :
        (r : Outcome (Unit {0})) (s : D.State) (paths : List String) (rest : D.State → Extracted D)
        → All (IsBelow dest) paths
        → Keep s
        → ((t : D.State) → Keep t → All (IsBelow dest) (rest t).0.0 × Keep (rest t).1)
        → All (IsBelow dest) (and_then D (r, s) paths rest).0.0
          × Keep (and_then D (r, s) paths rest).1
    and_then-Keep (ok u) s paths rest below h more = more s h
    and_then-Keep (err e) s paths rest below h more = (below, h)
    and_then-Keep panic s paths rest below h more = (below, h)

    unzip_entries-Keep :
        (paths : List String) (entries : List Entry) (s : D.State)
        → All IsName (split slash (clean dest))
        → All (IsBelow dest) paths
        → Keep s
        → All (IsBelow dest) (unzip_entries D dest paths entries s).0.0
          × Keep (unzip_entries D dest paths entries s).1
    unfolding unzip_entries
    unzip_entries-Keep paths [] s target below h = (below, h)
    unzip_entries-Keep paths (entry ∷ entries) s target below h =
        let path = join_path dest entry.name in
        elim (Bool-cases (is_below dest path)) [
          | inl e ↦
              let here = is_below-IsBelow dest entry.name target e in
              let below' = All-append (IsBelow dest) paths (path ∷ []) below (here, tt) in
              rw e (
                and_then-Keep (extract D path entry s).0 (extract D path entry s).1
                  (paths ++ path ∷ []) (unzip_entries D dest (paths ++ path ∷ []) entries) below'
                  (extract-Keep path entry s here h)
                  (λ t h'. unzip_entries-Keep (paths ++ path ∷ []) entries t target below' h'))
          | inr e ↦ rw e (below, h)
        ]

  -- If the target has no ".." after cleaning, then whatever the archive holds, all paths that `Unzip` returns
  -- are below the target, with or without an error: each is the cleaned target, a slash, and
  -- elements none of which is "..". And it keeps each property of the disk that is kept by calls
  -- about such paths and about the directories that they are in.
  pub unzip-confined :
      (src dest : String) (Keep : D.State → Type 0) (s : D.State)
      → All IsName (split slash (clean dest))
      → IsKept dest Keep
      → Keep s
      → All (IsBelow dest) (unzip D src dest s).0.0 × Keep (unzip D src dest s).1
  unfolding unzip
  unzip-confined src dest Keep s target kept h = by_reader (D.open_reader src s)
    where
      by_reader :
          (got : Result (List Entry))
          → All (IsBelow dest) (unzip_read D dest got s).0.0 × Keep (unzip_read D dest got s).1
      by_reader (value entries) = unzip_entries-Keep dest Keep kept [] entries s target tt h
      by_reader (failure e) = (tt, h)
