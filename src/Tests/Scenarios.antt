-- ===== src/Tests/Scenarios.antt =====
-- The theorems on scenario texts, on a text that loads and on one that does not.
use fun_exch_macher.Common.{◌⊎◌, ◌≡◌, true, some, List, [], ◌∷◌, map, pos, negsuc, All, arith}
use fun_exch_macher.Domain.{buy, sell}
use fun_exch_macher.App.Text.{Text, codes, lines}
use fun_exch_macher.App.Scenario.{load_scenario}
use fun_exch_macher.App.Rendered.{load_scenario-render}
use fun_exch_macher.App.Rendering.{
  Request, order, cancellation, replacement, render, command_of, FitsRequest,
}
use fun_exch_macher.App.Refused.{Loads, Refuses, load_scenario-cases}

-- A sell order, its replacement at a price below 0, and a cancellation.
abbrev requests : List Request
requests =
    order 1 77 5 10 sell (pos 101) (pos 18)
    ∷ replacement 2 77 5 10 11 buy (negsuc 4) (pos 3)
    ∷ cancellation 3 4294967295 5 11
    ∷ []

requests_fit : All FitsRequest requests
requests_fit = (
  ((omega arith, omega arith, omega arith, omega arith), omega arith, omega arith),
  (
    ((omega arith, omega arith, omega arith, omega arith), omega arith, omega arith, omega arith),
    ((omega arith, omega arith, omega arith, omega arith), tt),
  ),
)

load_scenario-render_example :
    load_scenario (codes "s.txt") (some (render requests))
    ≡ record { ok = true; error = []; commands = map command_of requests }
load_scenario-render_example = load_scenario-render (codes "s.txt") requests requests_fit

-- A comment, a cancellation, and an operation that is not known.
abbrev refused : Text
refused = codes "# a comment\nCANCEL 1 77 5 10\nCLOSE 2 77 5\nCANCEL 3 77 5 10\n"

load_scenario-cases_example :
    Loads [] (lines refused) (load_scenario (codes "s.txt") (some refused))
    ⊎ Refuses 0 (lines refused) (load_scenario (codes "s.txt") (some refused))
load_scenario-cases_example = load_scenario-cases (codes "s.txt") refused
