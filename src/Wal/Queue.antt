-- ===== src/Wal/Queue.antt =====
-- The positions of WalSegmentWriter (wal_segment_writer.cpp): every position that an append gives is
-- pending until a commit, then committed until it is taken, in order.
use fun_exch_macher.Common.{
  ℕ, ◌≡◌, refl, ap, sym, ◌∙◌, Bool, true, false, ◌&&◌, Bool-cases, inl, inr, Option, none, some,
  List, [], ◌∷◌, ◌++◌,
}
use mathlib.Core.List.{append_assoc, append-nil}
use fun_exch_macher.Wal.Types.{
  WalPosition, WalAppendResult, appended, append_rejected, append_failed,
}
use fun_exch_macher.Wal.Reader.{is_no_error}
use fun_exch_macher.Wal.Writer.{
  WalSegmentWriter, WriteOutcome, wrote_all, broke_after, fail_writer, write_bytes, write_record,
  append, commit, pop_committed_position,
}

-- A call of the writer, with what the system does in it.
pub data WriterCall : Type 0 where
  appends : ℕ → ℕ → List ℕ → WriteOutcome → WriterCall
  commits : Bool → WriterCall
  pops : WriterCall

-- The writer, the positions that appends gave, and those that were taken.
pub record History : Type 0 where
  pub writer : WalSegmentWriter
  pub given : List WalPosition
  pub taken : List WalPosition

abbrev given_by : WalAppendResult → List WalPosition
given_by r = elim (r.status) [
  | appended ↦ r.position ∷ []
  | append_rejected ↦ []
  | append_failed ↦ []
]

abbrev taken_by : Option WalPosition → List WalPosition
taken_by none = []
taken_by (some p) = p ∷ []

abbrev pub step : WriterCall → History → History
step (appends record_type tail payload outcome) h =
    let (r, w) = append h.writer tail record_type payload outcome in
    record { writer = w; given = h.given ++ given_by r; taken = h.taken }
step (commits flushed) h = record h { writer = (commit h.writer flushed).1 }
step pops h =
    let (p, w) = pop_committed_position h.writer in
    record { writer = w; given = h.given; taken = h.taken ++ taken_by p }

abbrev pub run_calls : List WriterCall → History → History
run_calls [] h = h
run_calls (c ∷ cs) h = run_calls cs (step c h)

-- What was given is what was taken, what is committed and what is pending, in this order.
abbrev pub IsQueue : History → Type 0
IsQueue h = h.given ≡ h.taken ++ (h.writer.committed_positions ++ h.writer.pending_positions)

record AppendKeeps (w : WalSegmentWriter) (r : WalAppendResult) (w' : WalSegmentWriter)
    : Type 0 where
  committed : w'.committed_positions ≡ w.committed_positions
  pending : w'.pending_positions ≡ w.pending_positions ++ given_by r

write_record-AppendKeeps :
    (w : WalSegmentWriter) (tail record_type : ℕ) (payload : List ℕ) (outcome : WriteOutcome)
    → w.good ≡ true
    → let (r, w') = write_record w tail record_type payload outcome in AppendKeeps w r w'
unfolding write_record write_bytes fail_writer
write_record-AppendKeeps w tail record_type payload wrote_all good =
    rw good (record { committed = refl; pending = refl })
write_record-AppendKeeps w tail record_type payload (broke_after n) good =
    rw good (record { committed = refl; pending = sym (append-nil w.pending_positions) })

append-AppendKeeps :
    (w : WalSegmentWriter) (tail record_type : ℕ) (payload : List ℕ) (outcome : WriteOutcome)
    → let (r, w') = append w tail record_type payload outcome in AppendKeeps w r w'
unfolding append fail_writer
append-AppendKeeps w tail record_type payload outcome =
    let none_more = sym (append-nil w.pending_positions) in
    elim (Bool-cases (is_no_error w.writer_error)) [
      | inr failed ↦ rw failed (record { committed = refl; pending = none_more })
      | inl working ↦ elim (Bool-cases w.good) [
        | inr bad ↦ rw (working, bad) (record { committed = refl; pending = none_more })
        | inl good ↦
            rw (working, good) (write_record-AppendKeeps _ tail record_type payload outcome refl)
      ]
    ]

append-IsQueue :
    (h : History) (record_type tail : ℕ) (payload : List ℕ) (outcome : WriteOutcome)
    → IsQueue h
    → IsQueue (step (appends record_type tail payload outcome) h)
append-IsQueue h record_type tail payload outcome q =
    let k = append-AppendKeeps h.writer tail record_type payload outcome in
    let p = given_by (append h.writer tail record_type payload outcome).0 in
    let c = h.writer.committed_positions in
    let n = h.writer.pending_positions in
    rw (k.committed, k.pending)
      (ap (λ x. x ++ p) q
        ∙ append_assoc h.taken (c ++ n) p
        ∙ ap (λ x. h.taken ++ x) (append_assoc c n p))

commit-IsQueue : (h : History) (flushed : Bool) → IsQueue h → IsQueue (step (commits flushed) h)
unfolding commit fail_writer
commit-IsQueue h flushed q =
    let published = h.writer.committed_positions ++ h.writer.pending_positions in
    elim (Bool-cases (is_no_error h.writer.writer_error)) [
      | inr failed ↦ rw failed q
      | inl working ↦ elim (Bool-cases (h.writer.good && flushed)) [
        | inr bad ↦ rw (working, bad) q
        | inl good ↦ rw (working, good) (q ∙ ap (λ x. h.taken ++ x) (sym (append-nil published)))
      ]
    ]

pop-IsQueue : (h : History) → IsQueue h → IsQueue (step pops h)
unfolding pop_committed_position
pop-IsQueue h q = go h.writer.committed_positions refl
  where
    go : (ps : List WalPosition) → h.writer.committed_positions ≡ ps → IsQueue (step pops h)
    go [] e =
        rw (e, pop_committed_position)
          (q
            ∙ ap (λ x. x ++ (h.writer.committed_positions ++ h.writer.pending_positions))
                (sym (append-nil h.taken)))
    go (p ∷ ps) e =
        rw (e, pop_committed_position)
          (q
            ∙ ap (λ x. h.taken ++ (x ++ h.writer.pending_positions)) e
            ∙ sym (append_assoc h.taken (p ∷ []) (ps ++ h.writer.pending_positions)))

-- Through any calls, with any outcomes of their writes and flushes, the positions that appends gave
-- are the taken, the committed and the pending ones, in this order, if they were so before.
pub run_calls-IsQueue : (cs : List WriterCall) (h : History) → IsQueue h → IsQueue (run_calls cs h)
run_calls-IsQueue [] h q = q
run_calls-IsQueue (appends record_type tail payload outcome ∷ cs) h q =
    run_calls-IsQueue cs (step (appends record_type tail payload outcome) h)
      (append-IsQueue h record_type tail payload outcome q)
run_calls-IsQueue (commits flushed ∷ cs) h q =
    run_calls-IsQueue cs (step (commits flushed) h) (commit-IsQueue h flushed q)
run_calls-IsQueue (pops ∷ cs) h q = run_calls-IsQueue cs (step pops h) (pop-IsQueue h q)

-- What a failed writer leaves alone.
pub record IsFrozen (before after : History) : Type 0 where
  pub file : after.writer.file ≡ before.writer.file
  pub error : after.writer.writer_error ≡ before.writer.writer_error
  pub given : after.given ≡ before.given
  pub pending : after.writer.pending_positions ≡ before.writer.pending_positions
  pub published :
      after.taken ++ after.writer.committed_positions
      ≡ before.taken ++ before.writer.committed_positions

step-IsFrozen :
    (c : WriterCall) (h : History)
    → is_no_error h.writer.writer_error ≡ false
    → IsFrozen h (step c h)
unfolding append commit pop_committed_position
step-IsFrozen (appends record_type tail payload outcome) h failed = rw failed (record {
  file = refl;
  error = refl;
  given = append-nil h.given;
  pending = refl;
  published = refl;
})
step-IsFrozen (commits flushed) h failed =
    rw failed (record { file = refl; error = refl; given = refl; pending = refl; published = refl })
step-IsFrozen pops h failed = go h.writer.committed_positions refl
  where
    go : (ps : List WalPosition) → h.writer.committed_positions ≡ ps → IsFrozen h (step pops h)
    go [] e =
        rw (e, pop_committed_position)
          (record {
            file = refl;
            error = refl;
            given = refl;
            pending = refl;
            published =
                ap (λ x. x ++ h.writer.committed_positions) (append-nil h.taken)
                ∙ ap (λ x. h.taken ++ x) e;
          })
    go (p ∷ ps) e =
        rw (e, pop_committed_position)
          (record {
            file = refl;
            error = refl;
            given = refl;
            pending = refl;
            published = append_assoc h.taken (p ∷ []) ps;
          })

-- Once a writer has failed, no call writes to its file or gives a position, its first error stays,
-- the pending positions stay pending, and none is published: the positions taken and then those
-- committed are the same sequence as before.
pub run_calls-IsFrozen :
    (cs : List WriterCall) (h : History)
    → is_no_error h.writer.writer_error ≡ false
    → IsFrozen h (run_calls cs h)
run_calls-IsFrozen [] h failed = record {
  file = refl;
  error = refl;
  given = refl;
  pending = refl;
  published = refl;
}
run_calls-IsFrozen (c ∷ cs) h failed =
    let now = step-IsFrozen c h failed in
    let later = run_calls-IsFrozen cs (step c h) (ap is_no_error now.error ∙ failed) in
    record {
      file = later.file ∙ now.file;
      error = later.error ∙ now.error;
      given = later.given ∙ now.given;
      pending = later.pending ∙ now.pending;
      published = later.published ∙ now.published;
    }
