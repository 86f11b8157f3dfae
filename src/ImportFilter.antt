-- ===== src/ImportFilter.antt =====
-- internal/dbengine/filter.go: the line filters that a database dump passes on import. A line is the
-- list of its bytes. The scanner of the standard library is its outcome: the lines and the error after
-- them. `S` is the writer with what lies behind it.
pub mod Stream
mod Tests
use locorum.Common.{
  ℕ, ◌+◌, String, Bool, true, false, Option, none, some, List, [], ◌∷◌, map, length, if◌then◌else◌,
}

-- `fn` is `Fn`, `none` where it returns nil.
pub record ImportFilter : Type 0 where
  pub name : String
  pub pat : List ℕ → Bool
  pub fn : List ℕ → Option (List ℕ)

pub data ScanError : Type 0 where
  too_long : ScanError
  read_failed : String → ScanError

pub data FilterError : Type 0 where
  write_failed flush_failed : String → FilterError
  scan_failed : ScanError → FilterError

pub record Writer (S : Type 0) : Type 0 where
  pub write : List ℕ → S → Option String × S
  pub write_byte : ℕ → S → Option String × S
  pub flush : S → Option String × S

-- The loop over the filters; `none` is a line that is dropped.
unfoldable pub rewrite_line : List ImportFilter → List ℕ → Option (List ℕ)
rewrite_line [] line = some line
rewrite_line (f ∷ filters) line = elim (f.pat line) [
  | false ↦ rewrite_line filters line
  | true ↦ elim (f.fn line) [ none ↦ none | some rewritten ↦ rewrite_line filters rewritten ]
]

module _ {S : Type 0} (out : Writer S) (filters : List ImportFilter) where
  -- A line and its end; the flag of the writer's error.
  unfoldable pub write_line : List ℕ → S → Option String × S
  write_line line w =
      let (err, w₁) = out.write line w in
      elim err [ some e ↦ (some e, w₁) | none ↦ out.write_byte b'\n' w₁ ]

  abbrev finish : Option ScanError → ℕ → S → ℕ × Option FilterError × S
  finish (some err) written w = (written, some (scan_failed err), w)
  finish none written w =
      let (err, w') = out.flush w in
      (written, elim err [ some e ↦ some (flush_failed e) | none ↦ none ], w')

  -- The loop over the lines.
  unfoldable pub filter_lines :
      List (List ℕ) → Option ScanError → ℕ → S → ℕ × Option FilterError × S
  unfolding rewrite_line write_line
  filter_lines [] scan_err written w = finish scan_err written w
  filter_lines (line ∷ lines) scan_err written w = elim (rewrite_line filters line) [
    | none ↦ filter_lines lines scan_err written w
    | some line' ↦
        let (err, w') = write_line line' w in
        elim err [
          | some e ↦ (written, some (write_failed e), w')
          | none ↦ filter_lines lines scan_err (written + (length line' + 1)) w'
        ]
  ]

  unfoldable pub filter_import_stream :
      List (List ℕ) → Option ScanError → S → ℕ × Option FilterError × S
  unfolding filter_lines
  filter_import_stream lines scan_err w = filter_lines lines scan_err 0 w

unfoldable pub filter_names : List ImportFilter → List String
filter_names filters = map (λ f. f.name) filters
