-- ===== src/ImportFilter/Tests.antt =====
-- Dumps that are filtered, and instances of the theorems.
use locorum.Common.{ℕ, ◌≡◌, refl, sym, append_assoc, none, some, List, [], ◌∷◌, ◌++◌}
use locorum.Common.Text.{codes, has_prefix}
use locorum.ImportFilter.{ImportFilter, too_long, scan_failed, Writer, filter_import_stream}
use locorum.ImportFilter.Stream.{
  IsReliable, Filtered, joined, rewritten, filter_import_stream-Filtered,
}

-- A writer that holds back what it takes until it is flushed.
abbrev buffer : Writer (List ℕ × List ℕ)
buffer = record {
  write = λ bs (sent, held). (none, (sent, held ++ bs));
  write_byte = λ b (sent, held). (none, (sent, held ++ b ∷ []));
  flush = λ (sent, held). (none, (sent ++ held, []));
}

buffer-IsReliable : IsReliable buffer (λ w. w.0) (λ w. w.1)
buffer-IsReliable = record {
  write_ok = λ bs w. (refl, sym (append_assoc w.0 w.1 bs));
  byte_ok = λ b w. (refl, sym (append_assoc w.0 w.1 (b ∷ [])));
  flush_ok = λ w. (refl, refl, refl);
}

abbrev no_definer : ImportFilter
no_definer = record {
  name = "definer";
  pat = λ line. has_prefix (codes "DEFINER") line;
  fn = λ line. none;
}

abbrev no_use : ImportFilter
no_use = record {
  name = "use";
  pat = λ line. has_prefix (codes "USE") line;
  fn = λ line. some (codes "--");
}

abbrev dump : List (List ℕ)
dump = codes "USE a" ∷ codes "DEFINER b" ∷ codes "INSERT" ∷ []

filtered :
    filter_import_stream buffer (no_definer ∷ no_use ∷ []) dump none ([], [])
    ≡ (10, none, (codes "--\nINSERT\n", []))
unfolding filter_import_stream has_prefix
filtered = refl

-- What is held back at an error of the scanner is counted and not sent on.
held_back :
    filter_import_stream buffer (no_definer ∷ no_use ∷ []) dump (some too_long) ([], [])
    ≡ (10, some (scan_failed too_long), ([], codes "--\nINSERT\n"))
unfolding filter_import_stream has_prefix
held_back = refl

filter_import_stream-Filtered_example :
    Filtered
      (λ w. w.0)
      (λ w. w.1)
      (joined (rewritten (no_definer ∷ no_use ∷ []) dump))
      none
      (filter_import_stream buffer (no_definer ∷ no_use ∷ []) dump none ([], []))
filter_import_stream-Filtered_example =
    filter_import_stream-Filtered buffer (λ w. w.0) (λ w. w.1) (no_definer ∷ no_use ∷ []) dump none
      ([], []) buffer-IsReliable refl
