-- ===== src/Commands/Lines.antt =====
-- The lines of a pod's logs (`PodLogs` of clientcmd/clientcmd.go).
use mathlib.Core.Path.{subst₂}
use mathlib.Core.List.{append-nil, append_assoc}
use layer7_operator.Prelude.{
  ℕ, ◌+◌, ◌<◌, ◌≤◌, String, ◌≡◌, ◌≢◌, refl, ap, ◌∙◌, true, false, List, [], ◌∷◌, ◌++◌, Option, none,
  some, value, Result, Error, Bool-cases, inl, inr, All, arith,
}
use layer7_operator.Prelude.Int.{nat_eq}
use layer7_operator.Commands.{
  Bytes, Stream, Cluster, Client, newline, max_scan_token_size, drop_cr, length, scan_lines,
  opened_logs, pod_logs,
}

abbrev pub HasNoNewline : Bytes → Type 0
HasNoNewline = All (λ b. b ≢ newline)

-- A line that the scanner gives back as it was: it has no newline, does not end in a carriage return, and
-- fits into the buffer with its newline.
pub record IsLine (line : Bytes) : Type 0 where
  pub no_newline : HasNoNewline line
  pub no_cr : drop_cr line ≡ line
  pub fits : length line < max_scan_token_size

-- Each line with a newline behind it.
abbrev pub lines_text : List Bytes → Bytes
lines_text [] = []
lines_text (line ∷ lines) = line ++ newline ∷ lines_text lines

length-snoc : (line : Bytes) (b : ℕ) → length (line ++ b ∷ []) ≡ 1 + length line
length-snoc [] b = refl
length-snoc (c ∷ line) b = ap (λ n. 1 + n) (length-snoc line b)

not-newline : (b : ℕ) → b ≢ newline → nat_eq b newline ≡ false
not-newline b h = ground arith

not-full :
    (n m : ℕ) → n + (1 + m) < max_scan_token_size → nat_eq (n + 1) max_scan_token_size ≡ false
not-full n m h = ground arith

-- A line that fits is read up to its newline.
scan_lines-line :
    (before line rest : Bytes)
    → HasNoNewline line
    → length before + length line < max_scan_token_size
    → scan_lines before (line ++ newline ∷ rest)
      ≡ (drop_cr (before ++ line) ∷ (scan_lines [] rest).0, (scan_lines [] rest).1)
unfolding scan_lines
scan_lines-line before [] rest h fits = rw append-nil refl
scan_lines-line before (b ∷ line) rest (h, hs) fits =
    rw
      (
        not-newline b h,
        not-full (length before) (length line) fits,
        scan_lines-line (before ++ b ∷ []) line rest hs (ground (arith, length-snoc before b)),
        append_assoc before (b ∷ []) line,
      )
      refl

-- Lines that fit, in front of more text.
scan_lines-append :
    (lines : List Bytes) (rest : Bytes)
    → All IsLine lines
    → scan_lines [] (lines_text lines ++ rest)
      ≡ (lines ++ (scan_lines [] rest).0, (scan_lines [] rest).1)
scan_lines-append [] rest h = refl
scan_lines-append (line ∷ lines) rest (h, hs) =
    rw
      (
        append_assoc line (newline ∷ lines_text lines) rest,
        scan_lines-line [] line (lines_text lines ++ rest) h.no_newline (ground (arith, h.fits)),
        h.no_cr,
        scan_lines-append lines rest hs,
      )
      refl

-- As many bytes as the buffer takes, without a newline among them.
scan_lines-too_long :
    (before line rest : Bytes)
    → HasNoNewline line
    → length before < max_scan_token_size
    → max_scan_token_size ≤ length before + length line
    → scan_lines before (line ++ rest) ≡ ([], true)
unfolding scan_lines
scan_lines-too_long before [] rest h room full = absurd (ground arith)
scan_lines-too_long before (b ∷ line) rest (h, hs) room full =
    elim (Bool-cases (nat_eq (length before + 1) max_scan_token_size)) [
      | inl e ↦ rw (not-newline b h, e) refl
      | inr e ↦
          rw
            (
              not-newline b h,
              e,
              scan_lines-too_long (before ++ b ∷ []) line rest hs
                  (ground (arith, length-snoc before b)) (ground (arith, length-snoc before b)),
            )
            refl
    ]

module _ {K : Cluster} (c : Client K) (namespace name : String) (s : K.State) where
  abbrev pub logs_of : Result Stream
  logs_of = K.get_logs c.client namespace name s

  -- Where a pod's log is read without an error and consists of lines that have no newline, do not end in a
  -- carriage return and are shorter than 65536 bytes, each with a newline behind it, `PodLogs` gives
  -- exactly these lines back, without an error.
  pub pod_logs-lines :
      (lines : List Bytes)
      → All IsLine lines
      → logs_of ≡ value (record { bytes = lines_text lines; error = none })
      → pod_logs K c namespace name s ≡ (some lines, none)
  unfolding pod_logs scan_lines
  pod_logs-lines lines h e =
      let read : scan_lines [] (lines_text lines) ≡ (lines, false) =
        subst₂ (λ text all. scan_lines [] text ≡ (all, false)) (append-nil (lines_text lines))
          (append-nil lines) (scan_lines-append lines [] h) in
      ap opened_logs e ∙ rw read refl

  -- If a pod's log consists of lines that have no newline, do not end in a carriage return and are shorter
  -- than 65536 bytes, each with a newline behind it, and then of 65536 bytes or more without a
  -- newline, `PodLogs` gives those lines and the error of the scanner, whatever follows and whatever
  -- error the stream ends with.
  pub pod_logs-too_long :
      (lines : List Bytes) (long rest : Bytes) (error : Option Error)
      → All IsLine lines
      → HasNoNewline long
      → max_scan_token_size ≤ length long
      → logs_of ≡ value (record { bytes = lines_text lines ++ (long ++ rest); error = error })
      → pod_logs K c namespace name s ≡ (
        some lines,
        some (record {
          message = "reading logs stream";
          cause = Error.other "bufio.Scanner: token too long";
        }),
      )
  unfolding pod_logs
  pod_logs-too_long lines long rest error h free full e =
      let read : scan_lines [] (lines_text lines ++ (long ++ rest)) ≡ (lines, true) =
        scan_lines-append lines (long ++ rest) h
        ∙ rw (scan_lines-too_long [] long rest free (ground arith) (ground arith))
            (λ i. (append-nil lines i, true)) in
      ap opened_logs e ∙ rw read refl
