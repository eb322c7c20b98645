-- ===== src/Tests/Values.antt =====
-- The theorem on typed records at pairs of bytes.
use fun_exch_macher.Common.{ℕ, ◌≡◌, refl, some, List, [], ◌∷◌, arith}
use fun_exch_macher.Wal.Types.{log_ended, end_of_log}
use fun_exch_macher.Wal.Reader.{open_reader}
use fun_exch_macher.Wal.Writer.{WalSegmentWriter}
use fun_exch_macher.Wal.Facade.{RecordLayout}
use fun_exch_macher.Wal.Written.{new_segment, IsNamed}
use fun_exch_macher.Wal.Typed.{IsLayout, append_values, read_values, read_values-append_values}

abbrev pair_of : List ℕ → ℕ × ℕ
pair_of (x ∷ y ∷ _) = (x, y)
pair_of _ = (0, 0)

abbrev layout : RecordLayout (ℕ × ℕ)
layout = record { record_type = 300; size = 2; to_image = λ x. x.0 ∷ x.1 ∷ []; of_image = pair_of }

layout-IsLayout : IsLayout layout (λ a. Unit {0})
layout-IsLayout = record {
  record_type = omega arith;
  size = omega arith;
  image_size = λ a. refl;
  copied = λ a fits. refl;
}

named : IsNamed 1 2 5
named = record {
  stream_id = (ground arith, omega arith);
  epoch = (ground arith, omega arith);
  first_sequence = (ground arith, omega arith);
}

abbrev values : List (ℕ × (ℕ × ℕ))
values = (0, (7, 8)) ∷ (0, (9, 10)) ∷ []

abbrev filled : WalSegmentWriter
filled = append_values layout (new_segment 1 2 5) values

read_values-append_values_example :
    read_values layout 3 (open_reader (some filled.file))
    ≡ some (
      (7, 8) ∷ (9, 10) ∷ [],
      record { status = log_ended; error = end_of_log; position = filled.last_position },
    )
read_values-append_values_example =
    read_values-append_values layout (λ a. Unit {0}) 3 1 2 5 values layout-IsLayout (omega arith)
      named (omega arith) ((omega arith, tt), ((omega arith, tt), tt))
