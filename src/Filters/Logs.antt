-- ===== src/Filters/Logs.antt =====
-- filter/logs/logs.go: a log entry before and one behind the next handler. An entry is the format and
-- the context that is printed by it.
use go_relax.Base.{List, [], ◌∷◌, ◌++◌, if◌then◌else◌}
use go_relax.Text.{Text, codes, is_empty}
use go_relax.Context.{Context, Outcome, HandlerFunc, returned, panicked}
use go_relax.Filters.Override.{or_text}

pub record Logs : Type 0 where
  pub pre_log_format : Text
  pub post_log_format : Text

abbrev pub Entry : Type 0
Entry = Text × Context

-- The first lines of Run
unfoldable pub with_defaults : Logs → Logs
unfolding codes
with_defaults f = record f {
  post_log_format =
      or_text f.post_log_format "%s [%-.8[1]L] \"%#[1]r\" => \"%#[1]s\" done in %.6[1]Ds";
}

abbrev log_after : Text → List Entry → Outcome → List Entry × Outcome
log_after format entries (returned c) = (entries ++ (format, c) ∷ [], returned c)
log_after format entries (panicked m c) = (entries, panicked m c)

-- Run: the entries that are written, and the outcome.
unfoldable pub run : Logs → HandlerFunc → Context → List Entry × Outcome
unfolding with_defaults
run f next c =
    let g = with_defaults f in
    let before : List Entry =
      if is_empty g.pre_log_format then [] else (g.pre_log_format, c) ∷ [] in
    log_after g.post_log_format before (next c)
