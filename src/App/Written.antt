-- ===== src/App/Written.antt =====
-- write_commands and write_events of main.cpp (src/app) on a disk that works, and what the replay
-- readers then get from the file.
use fun_exch_macher.Common.{
  ℕ, suc, ◌+◌, ◌<◌, ◌≡◌, refl, ap, subst, sym, ◌∙◌, true, some, List, [], ◌∷◌, ◌++◌, length,
  length-append, map, All, arith,
}
use fun_exch_macher.Replay.Runner.{record_read, end_of_log}
use fun_exch_macher.Wal.Types.{appended, committed}
use fun_exch_macher.Wal.Reader.{open_reader}
use fun_exch_macher.Wal.Writer.{
  WalSegmentWriter, wrote_all, append, write_record, write_bytes, commit,
}
use fun_exch_macher.Wal.Opening.{blank_writer, create_segment}
use fun_exch_macher.Wal.Facade.{RecordLayout, append_typed}
use fun_exch_macher.Wal.Made.{Entry, IsEntry}
use fun_exch_macher.Wal.Appended.{
  append_all, IsOpen, advance-IsOpen, append-advance, images, length-images,
}
use fun_exch_macher.Wal.Header.{segment_bytes}
use fun_exch_macher.Wal.Written.{new_segment, IsNamed, new_segment-IsOpen, written_file}
use fun_exch_macher.Wal.Prefix.{written-IsOpen}
use fun_exch_macher.Wal.Typed.{
  IsLayout, IsStored, append_values, append_values-append_all, entry_of, entry_of-IsEntry,
  read_values-append_values, length-map,
}
use fun_exch_macher.App.Storage.{
  Disk, prepared, append_storage_record, append_records, finish_log, replay_answers, rounds,
}
use fun_exch_macher.App.Reading.{answers_of, replay_answers-eq}

-- A disk on which nothing throws, the file opens, and every write and the flush succeed.
pub record IsWorking (disk : Disk) : Type 0 where
  pub preparation : disk.preparation ≡ prepared
  pub opens : disk.opens ≡ true
  pub header : disk.header ≡ wrote_all
  pub outcome : (i : ℕ) → disk.outcome i ≡ wrote_all
  pub tail : (i : ℕ) → disk.tail i < 4294967296
  pub flushed : disk.flushed ≡ true

append_appended :
    (w : WalSegmentWriter) (e : Entry)
    → IsOpen w
    → (append w e.tail e.record_type e.payload wrote_all).0.status ≡ appended
unfolding append write_record write_bytes
append_appended w e o = rw (o.error, o.good) refl

commit_keeps :
    (w : WalSegmentWriter)
    → IsOpen w
    → ((commit w true).0.status ≡ committed) × ((commit w true).1.file ≡ w.file)
unfolding commit
commit_keeps w o = rw (o.error, o.good) (refl, refl)

module _ {A : Type 0} (layout : RecordLayout A) (disk : Disk) (works : IsWorking disk) where
  -- The records from the i-th on, each with what its header's last bytes hold.
  abbrev pub with_tails : ℕ → List A → List (ℕ × A)
  with_tails i [] = []
  with_tails i (a ∷ xs) = (disk.tail i, a) ∷ with_tails (i + 1) xs

  pub values-with_tails : (i : ℕ) (xs : List A) → map (λ x. x.1) (with_tails i xs) ≡ xs
  values-with_tails i [] = refl
  values-with_tails i (a ∷ xs) = ap (λ ys. a ∷ ys) (values-with_tails (i + 1) xs)

  length-with_tails : (i : ℕ) (xs : List A) → length (with_tails i xs) ≡ length xs
  length-with_tails i [] = refl
  length-with_tails i (a ∷ xs) = ap suc (length-with_tails (i + 1) xs)

  with_tails-IsStored :
      (Fits : A → Type 0) (i : ℕ) (xs : List A)
      → All Fits xs
      → All (IsStored Fits) (with_tails i xs)
  with_tails-IsStored Fits i [] h = tt
  with_tails-IsStored Fits i (a ∷ xs) h =
      ((works.tail i, h.0), with_tails-IsStored Fits (i + 1) xs h.1)

  append_records-append_values :
      (i : ℕ) (w : WalSegmentWriter) (xs : List A)
      → IsOpen w
      → append_records layout disk i w xs ≡ (true, append_values layout w (with_tails i xs))
  unfolding append_records append_values append_storage_record append_typed
  append_records-append_values i w [] o = refl
  append_records-append_values i w (a ∷ xs) o =
      let e = entry_of layout (disk.tail i, a) in
      let next = append-advance w e o in
      let opened : IsOpen (append w e.tail e.record_type e.payload wrote_all).1 =
        subst IsOpen (sym next) (advance-IsOpen w e o) in
      rw (works.outcome i, append_appended w e o)
        (append_records-append_values (i + 1) (append w e.tail e.record_type e.payload wrote_all).1
          xs opened)

  -- The log that is written.
  module _ (Fits : A → Type 0) (copies : IsLayout layout Fits) (stream_id epoch first : ℕ)
      (named : IsNamed stream_id epoch first) (xs : List A) (fit : All Fits xs) where
    abbrev pub stored : List (ℕ × A)
    stored = with_tails 0 xs

    abbrev pub filled : WalSegmentWriter
    filled = append_values layout (new_segment stream_id epoch first) stored

    entries : (ys : List (ℕ × A)) → All (IsStored Fits) ys → All IsEntry (map (entry_of layout) ys)
    entries [] h = tt
    entries (y ∷ ys) h = (entry_of-IsEntry layout Fits copies y h.0.0, entries ys h.1)

    stored-entries : All IsEntry (map (entry_of layout) stored)
    stored-entries = entries stored (with_tails-IsStored Fits 0 xs fit)

    filled-append_all :
        filled ≡ append_all (new_segment stream_id epoch first) (map (entry_of layout) stored)
    filled-append_all = append_values-append_all layout (new_segment stream_id epoch first) stored

    filled-IsOpen : IsOpen filled
    filled-IsOpen =
        subst IsOpen (sym filled-append_all)
          (written-IsOpen stream_id epoch first (map (entry_of layout) stored) named stored-entries)

    created :
        create_segment (blank_writer [] stream_id epoch first) disk.opens disk.header
        ≡ new_segment stream_id epoch first
    created = rw (works.opens, works.header) refl

    finish_log-filled : finish_log layout disk xs (true, filled) ≡ (true, some filled.file)
    finish_log-filled = go xs filled filled-IsOpen
      where
        go :
            (ys : List A) (w : WalSegmentWriter)
            → IsOpen w
            → finish_log layout disk ys (true, w) ≡ (true, some w.file)
        go [] w o = rw works.opens refl
        go (y ∷ ys) w o =
            rw (works.opens, works.flushed, (commit_keeps w o).0, (commit_keeps w o).1) refl

    -- Everything is appended and committed.
    pub log_written :
        finish_log layout disk xs (
          append_records layout disk 0
            (create_segment (blank_writer [] stream_id epoch first) disk.opens disk.header)
            xs)
        ≡ (true, some filled.file)
    log_written =
        rw
          (
            created,
            append_records-append_values 0 (new_segment stream_id epoch first) xs
                (new_segment-IsOpen stream_id epoch first named),
          )
          finish_log-filled

    enough : length stored < length filled.file + 1
    enough =
        let w = new_segment stream_id epoch first in
        let es = map (entry_of layout) stored in
        omega (
          arith,
          length-map (entry_of layout) stored,
          length-images w es stored-entries,
          ap (λ (v : WalSegmentWriter). length v.file) filled-append_all,
          ap length (written_file stream_id epoch first named es),
          length-append (segment_bytes _) (images w es),
        )

    -- A replay reader gets every record, and then the end.
    pub log_read :
        first + length xs < 18446744073709551616
        → replay_answers layout (rounds (some filled.file)) (open_reader (some filled.file))
          ≡ some (map record_read xs ++ (end_of_log ∷ []))
    log_read room =
        let back =
          read_values-append_values layout Fits (length filled.file + 1) stream_id epoch first
            stored copies enough named (omega (arith, room, length-with_tails 0 xs))
            (with_tails-IsStored Fits 0 xs fit) in
        replay_answers-eq layout (length filled.file + 1) (open_reader (some filled.file))
        ∙ ap (answers_of layout) back
        ∙ ap (λ ys. some (map record_read ys ++ (end_of_log ∷ []))) (values-with_tails 0 xs)
