-- ===== src/App/Finishing.antt =====
-- The end of a run (main.cpp of src/app), by an exit code or by an exception of std::filesystem.
use fun_exch_macher.Common.{
  ℕ, ◌≤◌, ◌≡◌, refl, sym, subst, ◌⊎◌, inl, inr, Bool, true, false, Option, none, some, List, [],
  arith,
}
use fun_exch_macher.Domain.{OrderCommandRecord, ExecutionEventRecord}
use fun_exch_macher.Replay.Runner.{ReplayResult}
use fun_exch_macher.App.Text.{Text}
use fun_exch_macher.App.Storage.{
  Preparation, prepared, throws, prepared_log, Disk, run_engine, write_commands, write_events,
}
use fun_exch_macher.App.Reading.{replay_wals-ends}
use fun_exch_macher.App.Run.{
  exits, aborts, exit_code, Files, Environment, Run, after_log, run_scenario, replayed,
}
use fun_exch_macher.App.Replayed.{with_command_log, written_files}
use fun_exch_macher.App.Main.{Outcome, ran}

-- A value that is there.
abbrev pub Ends {ℓ} : {A : Type ℓ} → Option A → Type ℓ
Ends {A} o = (x : A) × (o ≡ some x)

-- What holds behind every value that is there.
pub Ends-through {ℓ κ} :
    {A : Type ℓ} {B : Type κ} (P : Option B → Type κ) (f : Option A → Option B) {o : Option A}
    → ((x : A) → P (f (some x)))
    → Ends o
    → P (f o)
Ends-through P f h (x, e) = subst (λ o. P (f o)) (sym e) (h x)

-- A call of std::filesystem in front of a log throws.
abbrev pub IsThrown : Disk → Type 0
IsThrown disk = (removed : Bool) × (disk.preparation ≡ throws removed)

-- An exit code of the program, or an abort, which leaves nothing on the output and happens only if a
-- call in front of one of the logs throws.
pub data EndsWell (env : Environment) (o : Outcome) : Type 0 where
  ends_with : (code : ℕ) → code ≤ 2 → o.ending ≡ exits code → EndsWell env o
  ends_thrown :
      IsThrown env.command_disk ⊎ IsThrown env.event_disk
      → o.ending ≡ aborts
      → o.output ≡ []
      → EndsWell env o

-- A run that ends so.
pub data RunEnds (env : Environment) (r : Run) : Type 0 where
  run_exits : (code : ℕ) → code ≤ 2 → r.ending ≡ exits code → RunEnds env r
  run_thrown :
      IsThrown env.command_disk ⊎ IsThrown env.event_disk
      → r.ending ≡ aborts
      → r.replay_result ≡ none
      → RunEnds env r

-- Without a result of the writing, a call in front of it threw.
prepared_log-thrown :
    (p : Preparation) (old : Option (List ℕ)) (end : Bool × Option (List ℕ))
    → (prepared_log p old end).0 ≡ none
    → (removed : Bool) × (p ≡ throws removed)
prepared_log-thrown prepared old end h = absurd (cc)
prepared_log-thrown (throws removed) old end h = (removed, refl)

write_commands-IsThrown :
    (slack : OrderCommandRecord → ℕ) (disk : Disk) (old : Option (List ℕ))
    (commands : List OrderCommandRecord)
    → (write_commands slack disk old commands).0 ≡ none
    → IsThrown disk
unfolding write_commands
write_commands-IsThrown slack disk old commands h = prepared_log-thrown disk.preparation old _ h

write_events-IsThrown :
    (slack : ExecutionEventRecord → ℕ) (disk : Disk) (old : Option (List ℕ))
    (events : List ExecutionEventRecord)
    → (write_events slack disk old events).0 ≡ none
    → IsThrown disk
unfolding write_events
write_events-IsThrown slack disk old events h = prepared_log-thrown disk.preparation old _ h

pub exit_code-bound : (r : ReplayResult) → exit_code r ≤ 2
unfolding exit_code
exit_code-bound r = ground arith

abbrev pub RunFinishes : Environment → Option Run → Type 0
RunFinishes env o = (r : Run) × (o ≡ some r) × RunEnds env r

after_log-RunFinishes :
    (env : Environment) (written : Option Bool) (files : Files) (rest : Option Run)
    → (written ≡ none → IsThrown env.command_disk ⊎ IsThrown env.event_disk)
    → RunFinishes env rest
    → RunFinishes env (after_log written files rest)
after_log-RunFinishes env none files rest threw h = (_, refl, run_thrown (threw refl) refl refl)
after_log-RunFinishes env (some false) files rest threw h =
    (_, refl, run_exits 1 (omega arith) refl)
after_log-RunFinishes env (some true) files rest threw h = h

pub run_scenario-RunFinishes :
    (env : Environment) (command_wal event_wal : Text) (files : Files)
    (commands : List OrderCommandRecord)
    → RunFinishes env (run_scenario env command_wal event_wal files commands)
unfolding run_scenario
run_scenario-RunFinishes env command_wal event_wal files commands =
    let files' = with_command_log env command_wal files commands in
    let files'' = written_files env command_wal event_wal files commands in
    after_log-RunFinishes env _ files' _
      (λ e. inl (write_commands-IsThrown env.command_slack env.command_disk _ commands e))
      (after_log-RunFinishes env _ files'' _
        (λ e. inr (write_events-IsThrown env.event_slack env.event_disk _ (run_engine commands) e))
        (Ends-through (RunFinishes env) (replayed files'')
          (λ r. (_, refl, run_exits (exit_code r) (exit_code-bound r) refl))
          (replay_wals-ends (files'' command_wal) (files'' event_wal))))

-- A command whose outcome is there and ends well.
abbrev pub Finishes : Environment → Option Outcome → Type 0
Finishes env o = (x : Outcome) × (o ≡ some x) × EndsWell env x

pub ran-Finishes :
    (env : Environment) (before : Text) (o : Option Run)
    → RunFinishes env o
    → Finishes env (ran before o)
ran-Finishes env before o (r, e, run_exits code bound ends) =
    rw e (_, refl, ends_with code bound ends)
ran-Finishes env before o (r, e, run_thrown threw ends without) =
    rw e (_, refl, ends_thrown threw ends (rw without refl))
