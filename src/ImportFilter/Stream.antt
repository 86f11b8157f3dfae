-- ===== src/ImportFilter/Stream.antt =====
-- internal/dbengine/filter.go: what a filtered dump holds, and filters in a row.
use locorum.Common.{
  ℕ, ◌+◌, ◌≡◌, refl, sym, ap, ◌∙◌, Option, none, some, List, [], ◌∷◌, ◌++◌, append_assoc,
  append-nil, length, length-append, Bool-cases, Option-cases, inl, inr, arith,
}
use mathlib.Core.Path.{subst}
use locorum.ImportFilter.{
  ImportFilter, Writer, FilterError, rewrite_line, write_line, filter_lines, filter_import_stream,
  scan_failed, ScanError,
}

-- The lines that a list of filters lets through, rewritten.
abbrev rewrite_onto : Option (List ℕ) → List (List ℕ) → List (List ℕ)
rewrite_onto none lines = lines
rewrite_onto (some line) lines = line ∷ lines

abbrev pub rewritten : List ImportFilter → List (List ℕ) → List (List ℕ)
rewritten filters [] = []
rewritten filters (line ∷ lines) =
    rewrite_onto (rewrite_line filters line) (rewritten filters lines)

-- A dump of lines: each with its end.
abbrev pub joined : List (List ℕ) → List ℕ
joined [] = []
joined (line ∷ lines) = (line ++ b'\n' ∷ []) ++ joined lines

-- A buffered writer that does not fail: what it takes is sent on, in order, or held back, and a flush holds
-- nothing back.
pub record IsReliable {S : Type 0} (out : Writer S) (sent held : S → List ℕ) : Type 0 where
  pub write_ok :
      (bs : List ℕ) (w : S)
      → ((out.write bs w).0 ≡ none)
        × (sent (out.write bs w).1 ++ held (out.write bs w).1 ≡ (sent w ++ held w) ++ bs)
  pub byte_ok :
      (b : ℕ) (w : S)
      → ((out.write_byte b w).0 ≡ none)
        × (sent (out.write_byte b w).1 ++ held (out.write_byte b w).1
            ≡ (sent w ++ held w) ++ b ∷ [])
  pub flush_ok :
      (w : S)
      → ((out.flush w).0 ≡ none)
        × (sent (out.flush w).1 ≡ sent w ++ held w)
        × (held (out.flush w).1 ≡ [])

abbrev scan_outcome : Option ScanError → Option FilterError
scan_outcome none = none
scan_outcome (some err) = some (scan_failed err)

-- What has arrived behind the writer: all without an error of the scanner, else all but what is held back.
abbrev Arrived : {S : Type 0} → (S → List ℕ) → (S → List ℕ) → List ℕ → Option ScanError → S → Type 0
Arrived sent held output none w = (sent w ≡ output) × (held w ≡ [])
Arrived sent held output (some err) w = sent w ++ held w ≡ output

-- What a stream ends with.
abbrev pub Filtered :
    {S : Type 0}
    → (S → List ℕ)
    → (S → List ℕ)
    → List ℕ
    → Option ScanError
    → ℕ × Option FilterError × S
    → Type 0
Filtered sent held output scan_err (written, err, w) =
    (written ≡ length output) × (err ≡ scan_outcome scan_err) × Arrived sent held output scan_err w

module _ {S : Type 0} (out : Writer S) (sent held : S → List ℕ)
    (reliable : IsReliable out sent held) (filters : List ImportFilter) where
  abbrev taken : S → List ℕ
  taken w = sent w ++ held w

  write_line_ok :
      (line : List ℕ) (w : S)
      → ((write_line out filters line w).0 ≡ none)
        × (taken (write_line out filters line w).1 ≡ taken w ++ (line ++ b'\n' ∷ []))
  unfolding write_line
  write_line_ok line w =
      let (e, v) = reliable.write_ok line w in
      let (e', v') = reliable.byte_ok b'\n' (out.write line w).1 in
      rw (e, write_line)
        (e', v' ∙ ap (λ s. s ++ b'\n' ∷ []) v ∙ append_assoc (taken w) line (b'\n' ∷ []))

  filter_lines-Filtered :
      (lines : List (List ℕ)) (scan_err : Option ScanError) (written : ℕ) (w : S)
      → written ≡ length (taken w)
      → Filtered sent held
          (taken w ++ joined (rewritten filters lines))
          scan_err
          (filter_lines out filters lines scan_err written w)
  unfolding filter_lines
  filter_lines-Filtered [] none written w n =
      let (e, v, nothing) = reliable.flush_ok w in
      rw (append-nil (sent w ++ held w), e) (n, refl, (v, nothing))
  filter_lines-Filtered [] (some err) written w n =
      rw (append-nil (sent w ++ held w)) (n, refl, refl)
  filter_lines-Filtered (line ∷ lines) scan_err written w n =
      elim (Option-cases (rewrite_line filters line)) [
        | inl dropped ↦
            rw (dropped, filter_lines) (filter_lines-Filtered lines scan_err written w n)
        | inr (line', kept) ↦
            let (e, v) = write_line_ok line' w in
            let w' = (write_line out filters line' w).1 in
            let rest = joined (rewritten filters lines) in
            let ended = line' ++ b'\n' ∷ [] in
            let counted : written + (length line' + 1) ≡ length (taken w') = omega (
              arith,
              n,
              ap length v,
              length-append (taken w) ended,
              length-append line' (b'\n' ∷ []),
            ) in
            let same : taken w' ++ rest ≡ taken w ++ (ended ++ rest) =
              ap (λ s. s ++ rest) v ∙ append_assoc (taken w) ended rest in
            rw (kept, e, filter_lines)
              (subst
                (λ output.
                  Filtered sent held output scan_err
                    (filter_lines out filters lines scan_err (written + (length line' + 1)) w'))
                same
                (filter_lines-Filtered lines scan_err (written + (length line' + 1)) w' counted))
      ]

-- Where the writer does not fail and has taken nothing yet, the count returned is the length of the rewritten
-- lines, each with its end, and an error is returned only for one of the scanner. Without one, all these lines
-- have been sent on; with one, all that the writer does not hold back.
pub filter_import_stream-Filtered :
    {S : Type 0} (out : Writer S) (sent held : S → List ℕ) (filters : List ImportFilter)
    (lines : List (List ℕ)) (scan_err : Option ScanError) (w : S)
    → IsReliable out sent held
    → sent w ++ held w ≡ []
    → Filtered sent held
        (joined (rewritten filters lines))
        scan_err
        (filter_import_stream out filters lines scan_err w)
unfolding filter_import_stream
filter_import_stream-Filtered out sent held filters lines scan_err w reliable e =
    subst
      (λ v.
        Filtered sent held (v ++ joined (rewritten filters lines)) scan_err
          (filter_lines out filters lines scan_err 0 w))
      e
      (filter_lines-Filtered out sent held reliable filters lines scan_err 0 w (ap length (sym e)))

-- Filters in a row: a second list of filters sees what the first one lets through.
abbrev and_then : Option (List ℕ) → (List ℕ → Option (List ℕ)) → Option (List ℕ)
and_then none next = none
and_then (some line) next = next line

rewrite_line-append :
    (fs gs : List ImportFilter) (line : List ℕ)
    → rewrite_line (fs ++ gs) line ≡ and_then (rewrite_line fs line) (rewrite_line gs)
unfolding rewrite_line
rewrite_line-append [] gs line = refl
rewrite_line-append (f ∷ fs) gs line = elim (Bool-cases (f.pat line)) [
  | inr other ↦ rw (other, rewrite_line) (rewrite_line-append fs gs line)
  | inl match ↦ elim (Option-cases (f.fn line)) [
    | inl dropped ↦ rw (match, dropped) refl
    | inr (line', kept) ↦ rw (match, kept, rewrite_line) (rewrite_line-append fs gs line')
  ]
]

rewritten-onto :
    (gs : List ImportFilter) (o : Option (List ℕ)) (lines : List (List ℕ))
    → rewrite_onto (and_then o (rewrite_line gs)) (rewritten gs lines)
      ≡ rewritten gs (rewrite_onto o lines)
rewritten-onto gs none lines = refl
rewritten-onto gs (some line) lines = refl

rewritten-append :
    (fs gs : List ImportFilter) (lines : List (List ℕ))
    → rewritten (fs ++ gs) lines ≡ rewritten gs (rewritten fs lines)
rewritten-append fs gs [] = refl
rewritten-append fs gs (line ∷ lines) =
    (λ i. rewrite_onto (rewrite_line-append fs gs line i) (rewritten-append fs gs lines i))
    ∙ rewritten-onto gs (rewrite_line fs line) (rewritten fs lines)

-- A stream through two lists of filters in a row returns the same count and error as the lines that the first
-- list lets through when they are streamed through the second list alone.
filter_import_stream-append :
    {S : Type 0} (out : Writer S) (sent held : S → List ℕ) (fs gs : List ImportFilter)
    (lines : List (List ℕ)) (scan_err : Option ScanError) (w : S)
    → IsReliable out sent held
    → sent w ++ held w ≡ []
    → let once = filter_import_stream out (fs ++ gs) lines scan_err w in
      let again = filter_import_stream out gs (rewritten fs lines) scan_err w in
      (once.0 ≡ again.0) × (once.1 ≡ again.1)
filter_import_stream-append out sent held fs gs lines scan_err w reliable e =
    let (n, r, v) =
      filter_import_stream-Filtered out sent held (fs ++ gs) lines scan_err w reliable e in
    let (n', r', v') =
      filter_import_stream-Filtered out sent held gs (rewritten fs lines) scan_err w reliable e in
    let same = ap joined (rewritten-append fs gs lines) in (n ∙ ap length same ∙ sym n', r ∙ sym r')
