-- ===== src/App/DumpedBook.antt =====
-- The dumps of main.cpp (src/app) that go through the projection, behind a run.
use fun_exch_macher.Common.{
  ℕ, ◌≡◌, refl, sym, ap, ◌∙◌, ℤ, Bool-cases, inl, inr, true, false, ◌==◌, if◌then◌else◌, some, List,
  [], ◌∷◌, ◌++◌, map, All, arith,
}
use mathlib.Core.List.{append_assoc, append-nil}
use fun_exch_macher.Domain.{ExecutionEventRecord}
use fun_exch_macher.OrderBook.Types.{increment}
use fun_exch_macher.Engine.{new_engine, run}
use fun_exch_macher.Replay.Runner.{record_read, end_of_log}
use fun_exch_macher.Projection.{
  MarketDataProjection, PublicTrade, Applied, ProjectionApplyResult, applied, ignored, rejected,
  empty_projection, public_trade, apply, dispatch, advance, apply_rested, upsert_order, apply_trade,
  reduce_order, apply_filled, apply_cancelled, remove_order,
}
use fun_exch_macher.Projection.Shown.{project}
use fun_exch_macher.Projection.Tracks.{AreTaken, is_taken}
use fun_exch_macher.Projection.Follows.{IsOrderNamed}
use fun_exch_macher.Projection.Agrees.{Agrees, FitsLevels, project-run}
use fun_exch_macher.App.Text.{Text, codes, equal}
use fun_exch_macher.App.Scenario.{load_scenario}
use fun_exch_macher.App.Storage.{run_engine}
use fun_exch_macher.App.Run.{exits, Files, Environment}
use fun_exch_macher.App.Replayed.{IsReady}
use fun_exch_macher.App.Dumps.{
  is_rejected, apply_projection, print_book, print_trades, dump_book, dump_trades,
}
use fun_exch_macher.App.Main.{Outcome, main, dump_command}
use fun_exch_macher.App.EndToEnd.{main-run}

-- The public trades that events tell of.
unfoldable pub trades_of : List ExecutionEventRecord → List PublicTrade
trades_of [] = []
trades_of (e ∷ es) = if e.event_type == 3 then public_trade e ∷ trades_of es else trades_of es

-- One event adds its trade, if it is one.
dispatch-trades :
    (m : MarketDataProjection) (e : ExecutionEventRecord)
    → is_taken (dispatch m e).0 ≡ true
    → (dispatch m e).1.trades ≡ m.trades ++ trades_of (e ∷ [])
unfolding dispatch trades_of apply_rested upsert_order apply_trade reduce_order apply_filled
    apply_cancelled remove_order
dispatch-trades m e h = ground (arith, h, append-nil m.trades)

advance-trades :
    (n : ℕ) (r : Applied) → ((advance n r).1.trades ≡ r.1.trades) × ((advance n r).0 ≡ r.0)
advance-trades n (applied, m) = (refl, refl)
advance-trades n (ignored, m) = (refl, refl)
advance-trades n (rejected x, m) = (refl, refl)

apply-trades :
    (m : MarketDataProjection) (e : ExecutionEventRecord)
    → is_taken (apply m e).0 ≡ true
    → (apply m e).1.trades ≡ m.trades ++ trades_of (e ∷ [])
unfolding apply
apply-trades m e h =
    elim (Bool-cases (e.event_sequence == increment m.last_applied_event_sequence)) [
      | inl next ↦
          let a = advance-trades e.event_sequence (dispatch m e) in
          rw next (a.0 ∙ dispatch-trades m e (ap is_taken (sym a.1) ∙ (rw next at h)))
      | inr gap ↦ absurd (ground (arith, rw gap at h))
    ]

trades_of-cons :
    (e : ExecutionEventRecord) (es : List ExecutionEventRecord)
    → trades_of (e ∷ es) ≡ trades_of (e ∷ []) ++ trades_of es
unfolding trades_of
trades_of-cons e es = ground arith

project-trades :
    (m : MarketDataProjection) (es : List ExecutionEventRecord)
    → AreTaken m es
    → (project m es).trades ≡ m.trades ++ trades_of es
unfolding project
project-trades m [] h = unfold trades_of in sym (append-nil m.trades)
project-trades m (e ∷ es) h =
    project-trades (apply m e).1 es h.1
    ∙ ap (λ ts. ts ++ trades_of es) (apply-trades m e h.0)
    ∙ append_assoc m.trades (trades_of (e ∷ [])) (trades_of es)
    ∙ ap (λ ts. m.trades ++ ts) (sym (trades_of-cons e es))

goes_on :
    {A : Type 0} (r : ProjectionApplyResult) (stop more : A)
    → is_taken r ≡ true
    → (if is_rejected r then stop else more) ≡ more
goes_on applied stop more h = refl
goes_on ignored stop more h = refl
goes_on (rejected x) stop more h = absurd (cc)

-- The loop over a log of which no event is rejected.
apply_projection-whole :
    (m : MarketDataProjection) (es : List ExecutionEventRecord)
    → AreTaken m es
    → apply_projection m (map record_read es ++ (end_of_log ∷ [])) ≡ (true, project m es)
unfolding apply_projection project
apply_projection-whole m [] h = refl
apply_projection-whole m (e ∷ es) h =
    rw (apply_projection-whole (apply m e).1 es h.1) (goes_on (apply m e).0 _ _ h.0)

module _ (env : Environment) (files : Files) (scenario command_wal event_wal : Text)
    (loads : (load_scenario scenario (files scenario)).ok ≡ true)
    (h : IsReady env (load_scenario scenario (files scenario)).commands)
    (differ : equal command_wal event_wal ≡ false)
    (named : All IsOrderNamed (load_scenario scenario (files scenario)).commands)
    (fits : FitsLevels
      (run (new_engine 1) (load_scenario scenario (files scenario)).commands).1) where
  abbrev events : List ExecutionEventRecord
  events = run_engine (load_scenario scenario (files scenario)).commands

  taken : AreTaken empty_projection events
  unfolding run_engine
  taken = (project-run (load_scenario scenario (files scenario)).commands named fits).0

  -- If the text of a scenario loads, no new order in it has id 0, its commands have consecutive
  -- sequences that do not start at 0 or reach 2 ^ 64, there are fewer than 2 ^ 64 - 1 events, at every
  -- price, on each side of the engine's book behind them, less than 2 ^ 63 rests, both disks work and
  -- the paths of the logs differ, then `run` exits with 0; `dump-book` on its event
  -- log then exits with 0 and prints a public book that shows, at every price and on each side, the
  -- quantity that rests in the book of the engine; and `dump-trades` exits with 0 and prints the
  -- trades among the events, in order.
  pub main-run_dumps :
      (o : Outcome) × (m : MarketDataProjection) × (main env files
          (codes "run" ∷ scenario ∷ command_wal ∷ event_wal ∷ [])
        ≡ some o)
      × (o.ending ≡ exits 0)
      × (main env o.files (codes "dump-book" ∷ event_wal ∷ [])
          ≡ some (record { ending = exits 0; output = print_book m; files = o.files }))
      × ((price : ℤ)
          → Agrees
              (run (new_engine 1) (load_scenario scenario (files scenario)).commands).1
              m.book
              price)
      × (main env o.files (codes "dump-trades" ∷ event_wal ∷ [])
          ≡ some (record {
            ending = exits 0;
            output = print_trades (trades_of events);
            files = o.files;
          }))
  unfolding main dump_command dump_book dump_trades equal
  main-run_dumps =
      let (o, ran, good, log) = main-run env files scenario command_wal event_wal loads h differ in
      let whole = apply_projection-whole empty_projection events taken in
      (
        o,
        project empty_projection events,
        ran,
        good,
        rw (log, whole) refl,
        unfold run_engine in
            (project-run (load_scenario scenario (files scenario)).commands named fits).1,
        rw (log, whole, project-trades empty_projection events taken) refl,
      )
