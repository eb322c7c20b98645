-- ===== src/Replay/Failing.antt =====
-- What the failures of ReplayRunner::replay (src/core/src/replay.cpp) report.
use fun_exch_macher.Common.{
  ℕ, ◌+◌, ◌<◌, ◌≡◌, ◌≢◌, refl, ◌∙◌, Bool, true, false, Bool-cases, inl, inr, Option, none, some,
  List, [], ◌∷◌, ◌++◌, length, map, arith,
}
use fun_exch_macher.Domain.{OrderCommandRecord, ExecutionEventRecord}
use fun_exch_macher.OrderBook.Types.{OrderBook, increment}
use fun_exch_macher.OrderBook.Invariant.{IsValid}
use fun_exch_macher.OrderBook.Checked.{IsValid-validate_invariants}
use fun_exch_macher.Replay.Comparing.{compare_self, compare_sound}
use fun_exch_macher.Replay.Differing.{FirstDifference, all_fields, compare-names}
use fun_exch_macher.Engine.{apply}
use fun_exch_macher.Engine.Invariant.{apply-IsValid}
use fun_exch_macher.Replay.Compare.{compare}
use fun_exch_macher.Replay.Runner.{
  LogReader, record_read, end_of_log, failed, ReplayFailureClass, ReplayFailure,
  invariant_violation, event_field_mismatch, Compared, stopped, matched, compare_events,
  breaks_sequence, finish_replay, read_next, replay_from, replay, mismatched_event,
}

abbrev pub is_violation : ReplayFailureClass → Bool
is_violation invariant_violation = true
is_violation _ = false

-- A failure within a command is another.
abbrev IsOther : Compared → Type 0
IsOther (stopped f n) = is_violation f.failure_class ≡ false
IsOther (matched rs n) = Unit

compare_events-IsOther :
    (c : OrderCommandRecord) (before after : OrderBook) (es : List ExecutionEventRecord) (index : ℕ)
    (stored : LogReader ExecutionEventRecord) (compared : ℕ)
    → IsOther (compare_events c before after es index stored compared)
unfolding compare_events
compare_events-IsOther c before after [] index stored compared = tt
compare_events-IsOther c before after (e ∷ es) index [] compared = refl
compare_events-IsOther c before after (e ∷ es) index (end_of_log ∷ rs) compared = refl
compare_events-IsOther c before after (e ∷ es) index (failed ∷ rs) compared = refl
compare_events-IsOther c before after (e ∷ es) index (record_read s ∷ rs) compared =
    elim (Bool-cases ((compare e s).equal)) [
      | inl same ↦
          rw (same, compare_events)
            (compare_events-IsOther c before after es (index + 1) rs (increment compared))
      | inr differ ↦ rw (differ, compare_events) refl
    ]

is_violation-finish_replay :
    (stored : LogReader ExecutionEventRecord) (commands events : ℕ)
    → is_violation (finish_replay stored commands events).failure.failure_class ≡ false
unfolding finish_replay read_next
is_violation-finish_replay [] commands events = refl
is_violation-finish_replay (end_of_log ∷ rs) commands events = refl
is_violation-finish_replay (failed ∷ rs) commands events = refl
is_violation-finish_replay (record_read e ∷ rs) commands events = refl

is_violation-replay_from :
    (commands : LogReader OrderCommandRecord) (previous : Option ℕ) (b : OrderBook)
    (stored : LogReader ExecutionEventRecord) (done events : ℕ)
    → IsValid b
    → is_violation (replay_from commands previous b stored done events).failure.failure_class
      ≡ false
unfolding replay_from
is_violation-replay_from [] previous b stored done events v =
    is_violation-finish_replay stored done events
is_violation-replay_from (end_of_log ∷ rs) previous b stored done events v =
    is_violation-finish_replay stored done events
is_violation-replay_from (failed ∷ rs) previous b stored done events v = refl
is_violation-replay_from (record_read c ∷ rs) previous b stored done events v =
    elim (Bool-cases (breaks_sequence previous c.command_sequence)) [
      | inl breaks ↦ rw (breaks, replay_from) refl
      | inr follows ↦
          go follows (compare_events c b (apply b c).1 (apply b c).0 0 stored events) refl
            (compare_events-IsOther c b (apply b c).1 (apply b c).0 0 stored events)
            (λ stored' n.
              is_violation-replay_from rs (some c.command_sequence) (apply b c).1 stored'
                (increment done) n (apply-IsValid b c v))
    ]
  where
    go :
        breaks_sequence previous c.command_sequence ≡ false
        → (r : Compared) → compare_events c b (apply b c).1 (apply b c).0 0 stored events ≡ r
        → IsOther r
        → ((stored' : LogReader ExecutionEventRecord) (n : ℕ)
            → is_violation
                (replay_from rs
                  (some c.command_sequence)
                  (apply b c).1
                  stored'
                  (increment done)
                  n).failure.failure_class
              ≡ false)
        → is_violation
            (replay_from (record_read c ∷ rs) previous b stored done events).failure.failure_class
          ≡ false
    go follows (stopped f n) e h later = rw (follows, e, replay_from) h
    go follows (matched stored' n) e h later =
        rw (follows, e, IsValid-validate_invariants (apply-IsValid b c v), replay_from)
          (later stored' n)

-- A replay that starts from a book that holds the invariant never fails with an invariant
-- violation, whatever the two logs hold.
pub is_violation-replay :
    (commands : LogReader OrderCommandRecord) (stored : LogReader ExecutionEventRecord)
    (b : OrderBook)
    → IsValid b
    → is_violation (replay commands stored b).failure.failure_class ≡ false
unfolding replay
is_violation-replay commands stored b v = is_violation-replay_from commands none b stored 0 0 v

-- What is reported of a generated event and the stored one that it does not match.
pub record ReportsMismatch (c : OrderCommandRecord) (e s : ExecutionEventRecord) (index : ℕ)
    (f : ReplayFailure) : Type 0 where
  pub failure_class : f.failure_class ≡ event_field_mismatch
  pub command_sequence : f.command_sequence ≡ c.command_sequence
  pub expected_event : f.expected_event ≡ some e
  pub actual_event : f.actual_event ≡ some s
  pub event_index : f.event_index_within_command ≡ index
  pub event_sequence : f.global_event_sequence ≡ e.event_sequence
  pub field : FirstDifference all_fields e s f.field

module _ (c : OrderCommandRecord) (before after : OrderBook) where
  compare_events-stops :
      (es : List ExecutionEventRecord) (e : ExecutionEventRecord) (more : List ExecutionEventRecord)
      (s : ExecutionEventRecord) (rest : LogReader ExecutionEventRecord) (index compared : ℕ)
      → (compare e s).equal ≡ false
      → compared + length es < 18446744073709551616
      → compare_events c before after
          (es ++ (e ∷ more))
          index
          (map record_read es ++ (record_read s ∷ rest))
          compared
        ≡ stopped
            (mismatched_event c before after e s (index + length es) (compare e s).field)
            (compared + length es)
  unfolding compare_events increment
  compare_events-stops [] e more s rest index compared differ room =
      let at : index ≡ index + 0 = omega arith in
      let counted : compared ≡ compared + 0 = omega arith in
      rw (differ, compare_events)
        (λ i. stopped (mismatched_event c before after e s (at i) (compare e s).field) (counted i))
  compare_events-stops (x ∷ es) e more s rest index compared differ room =
      let at : index + 1 + length es ≡ index + length (x ∷ es) = omega arith in
      let counted : increment compared + length es ≡ compared + length (x ∷ es) = omega arith in
      rw (compare_self x, compare_events)
        (compare_events-stops es e more s rest (index + 1) (increment compared) differ (omega arith)
          ∙ (λ i.
              stopped (mismatched_event c before after e s (at i) (compare e s).field) (counted i)))

  -- If the stored events begin with the first generated ones and then one that differs from the
  -- next, and fewer than 2 ^ 64 events are counted, the comparison stops there: it reports a field
  -- mismatch of the command, both events, the index and the sequence of the generated one, and the
  -- first field, in the order of the tests, in which they differ; and it has counted the events
  -- before.
  pub compare_events-mismatch :
      (es : List ExecutionEventRecord) (e : ExecutionEventRecord) (more : List ExecutionEventRecord)
      (s : ExecutionEventRecord) (rest : LogReader ExecutionEventRecord) (index compared : ℕ)
      → e ≢ s
      → compared + length es < 18446744073709551616
      → (f : ReplayFailure) × ReportsMismatch c e s (index + length es) f
        × (compare_events c before after
              (es ++ (e ∷ more))
              index
              (map record_read es ++ (record_read s ∷ rest))
              compared
            ≡ stopped f (compared + length es))
  compare_events-mismatch es e more s rest index compared differ room =
      elim (Bool-cases (compare e s).equal) [
        | inl same ↦ absurd (differ (compare_sound e s same))
        | inr found ↦ (
          mismatched_event c before after e s (index + length es) (compare e s).field,
          record {
            failure_class = refl;
            command_sequence = refl;
            expected_event = refl;
            actual_event = refl;
            event_index = refl;
            event_sequence = refl;
            field = compare-names e s found;
          },
          compare_events-stops es e more s rest index compared found room,
        )
      ]
