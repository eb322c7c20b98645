-- ===== src/Wal/Delivery.antt =====
-- The committed positions of WalSegmentWriter (wal_segment_writer.cpp) on their way to the client
-- that takes them.
use fun_exch_macher.Common.{◌≡◌, refl, ap, sym, ◌∙◌, true, List, [], ◌∷◌, ◌++◌}
use mathlib.Core.List.{append_assoc, append-nil}
use fun_exch_macher.Wal.Types.{WalPosition}
use fun_exch_macher.Wal.Reader.{is_no_error}
use fun_exch_macher.Wal.Writer.{commit, pop_committed_position}
use fun_exch_macher.Wal.Queue.{WriterCall, commits, pops, History, step, run_calls, IsQueue}

-- As many takings as a list is long.
abbrev pub takings {ℓ} : {A : Type ℓ} → List A → List WriterCall
takings [] = []
takings (p ∷ ps) = pops ∷ takings ps

run_calls-takings :
    (ps : List WalPosition) (h : History)
    → h.writer.committed_positions ≡ ps
    → (run_calls (takings ps) h).taken ≡ h.taken ++ ps
run_calls-takings [] h e = sym (append-nil h.taken)
run_calls-takings (p ∷ ps) h e =
    let popped : ((step pops h).taken ≡ h.taken ++ (p ∷ []))
        × ((step pops h).writer.committed_positions ≡ ps) =
      unfold pop_committed_position in rw (e, pop_committed_position) (refl, refl) in
    run_calls-takings ps (step pops h) popped.1
    ∙ ap (λ ts. ts ++ ps) popped.0
    ∙ append_assoc h.taken (p ∷ []) ps

-- If the positions that appends gave are the taken, the committed and the pending ones, in this order,
-- and the writer works, then a commit whose flush succeeds, with as many takings behind it as there
-- are committed and pending positions, hands out every position that was given, in order.
pub run_calls-delivers :
    (h : History)
    → IsQueue h
    → is_no_error h.writer.writer_error ≡ true
    → h.writer.good ≡ true
    → (run_calls
        (commits true ∷ takings (h.writer.committed_positions ++ h.writer.pending_positions))
        h).taken
      ≡ h.given
run_calls-delivers h q working good =
    let waiting = h.writer.committed_positions ++ h.writer.pending_positions in
    let published : (commit h.writer true).1.committed_positions ≡ waiting =
      unfold commit in rw (working, good) refl in
    run_calls-takings waiting (step (commits true) h) published ∙ sym q
