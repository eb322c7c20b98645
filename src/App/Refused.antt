-- ===== src/App/Refused.antt =====
-- The end of load_scenario (scenario_loader.cpp of src/app): every row is good, or the first bad one
-- is refused.
use fun_exch_macher.Common.{
  ℕ, ◌+◌, ◌≡◌, refl, ap, sym, ◌∙◌, ◌⊎◌, inl, inr, true, false, Bool-cases, if◌then◌else◌, some,
  List, [], ◌∷◌, ◌++◌, length, All, arith,
}
use mathlib.Core.List.{append_assoc, append-nil}
use fun_exch_macher.Domain.{OrderCommandRecord}
use fun_exch_macher.App.Text.{Text, codes, show_number, words, lines}
use fun_exch_macher.App.Scenario.{
  Row, loaded, bad, parse_row, ScenarioLoadResult, failed_scenario, line_error, is_skipped,
  load_lines, load_scenario,
}

-- A row that is skipped, or gives a command.
abbrev pub IsGood : Text → Type 0
IsGood line =
    (is_skipped line ≡ true)
    ⊎ ((is_skipped line ≡ false) × ((c : OrderCommandRecord) × (parse_row (words line) ≡ loaded c)))

abbrev command_in : Row → List OrderCommandRecord
command_in (loaded c) = c ∷ []
command_in (bad message) = []

-- The commands of the rows that are not skipped.
unfoldable pub commands_of : List Text → List OrderCommandRecord
commands_of [] = []
commands_of (line ∷ rest) =
    if is_skipped line
    then commands_of rest
    else command_in (parse_row (words line)) ++ commands_of rest

-- All rows are good, and the result has their commands behind those in front.
pub record Loads (front : List OrderCommandRecord) (rows : List Text) (r : ScenarioLoadResult)
    : Type 0 where
  pub good : All IsGood rows
  pub result : r ≡ record { ok = true; error = []; commands = front ++ commands_of rows }

-- The rows behind `n` others begin with good ones and then a bad one, which the result reports under
-- its number, without a command.
pub record Refuses (n : ℕ) (rows : List Text) (r : ScenarioLoadResult) : Type 0 where
  pub good : List Text
  pub line : Text
  pub rest : List Text
  pub message : Text
  pub split : rows ≡ good ++ (line ∷ rest)
  pub are_good : All IsGood good
  pub kept : is_skipped line ≡ false
  pub is_bad : parse_row (words line) ≡ bad message
  pub result : r ≡ record {
    ok = false;
    error = codes "line " ++ (show_number (n + (length good + 1)) ++ (codes ": " ++ message));
    commands = [];
  }

-- One good row in front.
Loads-cons :
    (front found : List OrderCommandRecord) (line : Text) (rows : List Text)
    (r : ScenarioLoadResult)
    → IsGood line
    → commands_of (line ∷ rows) ≡ found ++ commands_of rows
    → Loads (front ++ found) rows r
    → Loads front (line ∷ rows) r
Loads-cons front found line rows r g e l = record {
  good = (g, l.good);
  result = l.result ∙ (λ i. record {
    ok = true;
    error = [];
    commands = (append_assoc front found (commands_of rows) ∙ ap (λ x. front ++ x) (sym e)) i;
  });
}

Refuses-cons :
    (n : ℕ) (line : Text) (rows : List Text) (r : ScenarioLoadResult)
    → IsGood line
    → Refuses (n + 1) rows r
    → Refuses n (line ∷ rows) r
Refuses-cons n line rows r g f =
    let at : n + 1 + (length f.good + 1) ≡ n + (length (line ∷ f.good) + 1) = omega arith in
    record {
      good = line ∷ f.good;
      line = f.line;
      rest = f.rest;
      message = f.message;
      split = ap (λ x. line ∷ x) f.split;
      are_good = (g, f.are_good);
      kept = f.kept;
      is_bad = f.is_bad;
      result = f.result ∙ (λ i. record {
        ok = false;
        error = codes "line " ++ (show_number (at i) ++ (codes ": " ++ f.message));
        commands = [];
      });
    }

one_more :
    (n : ℕ) (front found : List OrderCommandRecord) (line : Text) (rows : List Text)
    (r : ScenarioLoadResult)
    → IsGood line
    → commands_of (line ∷ rows) ≡ found ++ commands_of rows
    → Loads (front ++ found) rows r ⊎ Refuses (n + 1) rows r
    → Loads front (line ∷ rows) r ⊎ Refuses n (line ∷ rows) r
one_more n front found line rows r g e (inl l) = inl (Loads-cons front found line rows r g e l)
one_more n front found line rows r g e (inr f) = inr (Refuses-cons n line rows r g f)

Row-cases :
    (r : Row) → ((c : OrderCommandRecord) × (r ≡ loaded c)) ⊎ ((message : Text) × (r ≡ bad message))
Row-cases (loaded c) = inl (c, refl)
Row-cases (bad message) = inr (message, refl)

load_lines-cases :
    (n : ℕ) (front : List OrderCommandRecord) (rows : List Text)
    → Loads front rows (load_lines n front rows) ⊎ Refuses n rows (load_lines n front rows)
unfolding load_lines failed_scenario line_error commands_of
load_lines-cases n front [] = inl (record {
  good = tt;
  result = λ i. record { ok = true; error = []; commands = sym (append-nil front) i };
})
load_lines-cases n front (line ∷ rest) = elim (Bool-cases (is_skipped line)) [
  | inl skipped ↦
      rw (skipped, load_lines)
        (one_more n front [] line rest _ (inl skipped) (rw (skipped, commands_of) refl)
          (rw (append-nil front) (load_lines-cases (n + 1) front rest)))
  | inr kept ↦ elim (Row-cases (parse_row (words line))) [
    | inl (c, found) ↦
        rw (kept, found, load_lines)
          (one_more n front (c ∷ []) line rest _ (inr (kept, (c, found)))
            (rw (kept, found, commands_of) refl)
            (load_lines-cases (n + 1) (front ++ (c ∷ [])) rest))
    | inr (message, refused) ↦ inr (record {
      good = [];
      line = line;
      rest = rest;
      message = message;
      split = refl;
      are_good = tt;
      kept = kept;
      is_bad = refused;
      result = rw (kept, refused, load_lines) refl;
    })
  ]
]

-- For any text of a scenario, either every row is skipped or gives a command, and loading succeeds
-- with the commands of the rows that are not skipped, in order; or the rows begin with such ones and
-- then one that is not skipped and is bad, and loading fails, gives no command, and reports the
-- message of the bad row under its number, counted from 1 over all rows.
pub load_scenario-cases :
    (path text : Text)
    → Loads [] (lines text) (load_scenario path (some text))
      ⊎ Refuses 0 (lines text) (load_scenario path (some text))
unfolding load_scenario
load_scenario-cases path text = load_lines-cases 0 [] (lines text)
