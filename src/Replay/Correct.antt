-- ===== src/Replay/Correct.antt =====
-- ReplayRunner::replay succeeds exactly on the logs that the engine writes.
use fun_exch_macher.Common.{
  ℕ, ◌+◌, ◌≡◌, refl, ap, ◌∙◌, Bool, true, false, Bool-cases, if◌then◌else◌, ◌↔◌, inl, inr, ◌⊎◌,
  Option, none, some, List, [], ◌∷◌, ◌++◌, arith,
}
use fun_exch_macher.Domain.{OrderCommandRecord, ExecutionEventRecord}
use fun_exch_macher.OrderBook.Types.{OrderBook, increment}
use fun_exch_macher.OrderBook.Check.{validate_invariants}
use fun_exch_macher.OrderBook.Checked.{IsValid-validate_invariants}
use fun_exch_macher.OrderBook.Invariant.{IsValid}
use fun_exch_macher.Engine.{apply, run}
use fun_exch_macher.Engine.Invariant.{apply-IsValid}
use fun_exch_macher.Replay.Compare.{compare}
use fun_exch_macher.Replay.Comparing.{compare_sound, compare_self}
use fun_exch_macher.Replay.Runner.{
  record_read, end_of_log, failed, LogReader, read_next, Compared, stopped, matched, compare_events,
  finish_replay, replay_from, replay, ReplayFailure, breaks_sequence,
}

module _ {A : Type 0} where
  -- The records that a reader gives before it reports the end or a failure.
  abbrev pub read_all : LogReader A → List A
  read_all [] = []
  read_all (record_read a ∷ rs) = a ∷ read_all rs
  read_all (end_of_log ∷ rs) = []
  read_all (failed ∷ rs) = []

  -- Whether it comes to the end, and not to a failure.
  abbrev pub ends_cleanly : LogReader A → Bool
  ends_cleanly [] = true
  ends_cleanly (record_read a ∷ rs) = ends_cleanly rs
  ends_cleanly (end_of_log ∷ rs) = true
  ends_cleanly (failed ∷ rs) = false

-- Each command's sequence follows that of the command before it.
abbrev pub is_consecutive : Option ℕ → List OrderCommandRecord → Bool
is_consecutive previous [] = true
is_consecutive previous (c ∷ cs) =
    if breaks_sequence previous c.command_sequence
    then false
    else is_consecutive (some c.command_sequence) cs

abbrev Events : Type 0
Events = LogReader ExecutionEventRecord

module _ (c : OrderCommandRecord) (before after : OrderBook) where
  -- A comparison that passes has read the generated events, and no more.
  compare_events_sound :
      (es : List ExecutionEventRecord) (i : ℕ) (stored : Events) (n : ℕ) (rest : Events) (m : ℕ)
      → compare_events c before after es i stored n ≡ matched rest m
      → (read_all stored ≡ es ++ read_all rest) × (ends_cleanly stored ≡ ends_cleanly rest)
  unfolding compare_events
  compare_events_sound [] i stored n rest m h = ground arith
  compare_events_sound (e ∷ es) i [] n rest m h = absurd (cc)
  compare_events_sound (e ∷ es) i (end_of_log ∷ rs) n rest m h = absurd (cc)
  compare_events_sound (e ∷ es) i (failed ∷ rs) n rest m h = absurd (cc)
  compare_events_sound (e ∷ es) i (record_read s ∷ rs) n rest m h =
      ground (arith, compare_sound e s, compare_events_sound es (i + 1) rs (increment n) rest m)

  -- It passes on the events that were generated, followed by any others.
  compare_events_complete :
      (es : List ExecutionEventRecord) (i : ℕ) (stored : Events) (n : ℕ)
      (later : List ExecutionEventRecord)
      → read_all stored ≡ es ++ later
      → ends_cleanly stored ≡ true
      → (rest : Events) × (m : ℕ) × (compare_events c before after es i stored n ≡ matched rest m)
        × (read_all rest ≡ later)
        × (ends_cleanly rest ≡ true)
  unfolding compare_events
  compare_events_complete [] i stored n later h k = (stored, n, refl, h, k)
  compare_events_complete (e ∷ es) i [] n later h k = absurd (cc)
  compare_events_complete (e ∷ es) i (end_of_log ∷ rs) n later h k = absurd (cc)
  compare_events_complete (e ∷ es) i (failed ∷ rs) n later h k = absurd (cc)
  compare_events_complete (e ∷ es) i (record_read s ∷ rs) n later h k =
      let (rest, m, run, same, clean) =
        compare_events_complete es (i + 1) rs (increment n) later (ground arith) k in
      let equal : (compare e s).equal ≡ true = ground (arith, compare_self e) in
      (rest, m, rw equal run, same, clean)

-- The end: no stored event may be left, and reading must not fail.
finish_replay_iff :
    (stored : Events) (k n : ℕ)
    → ((finish_replay stored k n).ok ≡ true)
      ↔ ((ends_cleanly stored ≡ true) × (read_all stored ≡ []))
unfolding finish_replay read_next
finish_replay_iff [] k n = ((λ h. (refl, refl)), λ h. refl)
finish_replay_iff (record_read e ∷ rs) k n = ((λ h. absurd (cc)), λ h. absurd (cc (h.1)))
finish_replay_iff (end_of_log ∷ rs) k n = ((λ h. (refl, refl)), λ h. refl)
finish_replay_iff (failed ∷ rs) k n = ((λ h. absurd (cc)), λ h. absurd (cc (h.0)))

-- A replay from `b` that succeeds has read both logs to their ends; the sequences of the commands
-- are consecutive, and the stored events are those of a run of the commands.
pub record IsFaithful (previous : Option ℕ) (b : OrderBook)
    (commands : LogReader OrderCommandRecord) (stored : Events) : Type 0 where
  pub commands_end : ends_cleanly commands ≡ true
  pub stored_end : ends_cleanly stored ≡ true
  pub consecutive : is_consecutive previous (read_all commands) ≡ true
  pub events : read_all stored ≡ (run b (read_all commands)).0

Compared-cases :
    (r : Compared)
    → ((f : ReplayFailure) × (n : ℕ) × (r ≡ stopped f n))
      ⊎ ((rest : Events) × (n : ℕ) × (r ≡ matched rest n))
Compared-cases (stopped f n) = inl (f, n, refl)
Compared-cases (matched rest n) = inr (rest, n, refl)

replay_from_sound :
    (commands : LogReader OrderCommandRecord) (previous : Option ℕ) (b : OrderBook)
    (stored : Events) (k n : ℕ)
    → (replay_from commands previous b stored k n).ok ≡ true
    → IsFaithful previous b commands stored
unfolding replay_from run
replay_from_sound [] previous b stored k n h =
    let e = (finish_replay_iff stored k n).0 h in
    record { commands_end = refl; stored_end = e.0; consecutive = refl; events = e.1 }
replay_from_sound (end_of_log ∷ rs) previous b stored k n h =
    let e = (finish_replay_iff stored k n).0 h in
    record { commands_end = refl; stored_end = e.0; consecutive = refl; events = e.1 }
replay_from_sound (failed ∷ rs) previous b stored k n h = absurd (cc)
replay_from_sound (record_read c ∷ rs) previous b stored k n h =
    elim (Bool-cases (breaks_sequence previous c.command_sequence)) [
      | inl broken ↦ absurd (cc (rw broken at h))
      | inr follows ↦
          elim (Compared-cases (compare_events c b (apply b c).1 (apply b c).0 0 stored n)) [
            | inl (f, m, e) ↦ absurd (cc (rw (follows, e, replay_from) at h))
            | inr (rest, m, e) ↦ elim (Bool-cases (validate_invariants (apply b c).1)) [
              | inr bad ↦ absurd (cc (rw (follows, e, replay_from, bad) at h))
              | inl good ↦
                  let s =
                    compare_events_sound c b (apply b c).1 (apply b c).0 0 stored n rest m e in
                  let later =
                    replay_from_sound rs (some c.command_sequence) (apply b c).1 rest (increment k)
                      m (rw (follows, e, replay_from, good) at h) in
                  record {
                    commands_end = later.commands_end;
                    stored_end = s.1 ∙ later.stored_end;
                    consecutive = rw follows later.consecutive;
                    events = s.0 ∙ ap (λ x. (apply b c).0 ++ x) later.events;
                  }
            ]
          ]
    ]

replay_from_complete :
    (commands : LogReader OrderCommandRecord) (previous : Option ℕ) (b : OrderBook)
    (stored : Events) (k n : ℕ)
    → IsValid b
    → IsFaithful previous b commands stored
    → (replay_from commands previous b stored k n).ok ≡ true
unfolding replay_from run
replay_from_complete [] previous b stored k n v f =
    (finish_replay_iff stored k n).1 (f.stored_end, f.events)
replay_from_complete (end_of_log ∷ rs) previous b stored k n v f =
    (finish_replay_iff stored k n).1 (f.stored_end, f.events)
replay_from_complete (failed ∷ rs) previous b stored k n v f = absurd (cc f.commands_end)
replay_from_complete (record_read c ∷ rs) previous b stored k n v f =
    elim (Bool-cases (breaks_sequence previous c.command_sequence)) [
      | inl broken ↦ absurd (cc (rw broken at f.consecutive))
      | inr follows ↦
          let b' = (apply b c).1 in
          let valid = apply-IsValid b c v in
          let (rest, m, e, same, clean) =
            compare_events_complete c b b' (apply b c).0 0 stored n (run b' (read_all rs)).0
              f.events f.stored_end in
          rw (follows, e, replay_from, IsValid-validate_invariants valid)
            (replay_from_complete rs (some c.command_sequence) b' rest (increment k) m valid
              (record {
                commands_end = f.commands_end;
                stored_end = clean;
                consecutive = rw follows at f.consecutive;
                events = same;
              }))
    ]

-- From a valid book, a replay succeeds exactly if both readers come to their ends without a
-- failure, each command's sequence follows the one before it, and the stored events are, one by
-- one and with none left over, the events of a run of the commands.
pub replay_iff :
    (commands : LogReader OrderCommandRecord) (stored : LogReader ExecutionEventRecord)
    (b : OrderBook)
    → IsValid b
    → ((replay commands stored b).ok ≡ true) ↔ IsFaithful none b commands stored
unfolding replay
replay_iff commands stored b v = (
  replay_from_sound commands none b stored 0 0,
  replay_from_complete commands none b stored 0 0 v,
)
