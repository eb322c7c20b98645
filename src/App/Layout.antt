-- ===== src/App/Layout.antt =====
-- The memory images of domain::OrderCommandRecordV1 and domain::ExecutionEventRecordV1 (src/domain)
-- on a little-endian 64-bit machine: the fields in order, with no gap between them, and four bytes of
-- padding at the end, which hold what `slack` says.
use fun_exch_macher.Common.{
  ℕ, ◌-◌, ◌<◌, ◌≡◌, refl, ℤ, pos, negsuc, ltb, if◌then◌else◌, List, [], ◌∷◌, ap, ◌∙◌, arith,
}
use fun_exch_macher.Domain.{
  OrderCommandRecord, ExecutionEventRecord, encode_record_type, order_command, execution_event,
}
use fun_exch_macher.Domain.Fits.{IsInt64, FitsCommand, FitsEvent}
use fun_exch_macher.Wal.Bytes.{to_bytes, of_bytes}
use fun_exch_macher.Wal.Header.{write_fields, field_at}
use fun_exch_macher.Wal.Encoding.{of_bytes-to_bytes}
use fun_exch_macher.Wal.Facade.{RecordLayout}
use fun_exch_macher.Wal.Typed.{IsLayout}

-- A std::int64_t as the word that holds it, in two's complement.
unfoldable pub to_word : ℤ → ℕ
to_word (pos n) = n
to_word (negsuc n) = 18446744073709551615 - n

unfoldable pub of_word : ℕ → ℤ
of_word w = if ltb w 9223372036854775808 then pos w else negsuc (18446744073709551615 - w)

of_word-to_word : (a : ℤ) → IsInt64 a → of_word (to_word a) ≡ a
unfolding of_word to_word
of_word-to_word (pos n) h = ground arith
of_word-to_word (negsuc n) h = ground arith

to_word_bound : (a : ℤ) → IsInt64 a → to_word a < 18446744073709551616
unfolding to_word
to_word_bound (pos n) h = omega arith
to_word_bound (negsuc n) h = omega arith

abbrev command_fields : ℕ → OrderCommandRecord → List (ℕ × ℕ)
command_fields slack c =
    (8, c.command_sequence)
    ∷ (8, c.source_ingress_epoch)
    ∷ (8, c.source_ingress_sequence)
    ∷ (8, c.order_id)
    ∷ (8, c.replacement_order_id)
    ∷ (8, c.client_id)
    ∷ (8, to_word c.price_ticks)
    ∷ (8, to_word c.quantity_lots)
    ∷ (4, c.instrument_id)
    ∷ (2, c.command_type)
    ∷ (2, c.side)
    ∷ (2, c.time_in_force)
    ∷ (2, c.reserved)
    ∷ (4, slack)
    ∷ []

unfoldable pub command_image : ℕ → OrderCommandRecord → List ℕ
command_image slack c = write_fields (command_fields slack c)

unfoldable pub command_of_image : List ℕ → OrderCommandRecord
command_of_image bs = record {
  command_sequence = field_at 0 8 bs;
  source_ingress_epoch = field_at 8 8 bs;
  source_ingress_sequence = field_at 16 8 bs;
  order_id = field_at 24 8 bs;
  replacement_order_id = field_at 32 8 bs;
  client_id = field_at 40 8 bs;
  price_ticks = of_word (field_at 48 8 bs);
  quantity_lots = of_word (field_at 56 8 bs);
  instrument_id = field_at 64 4 bs;
  command_type = field_at 68 2 bs;
  side = field_at 70 2 bs;
  time_in_force = field_at 72 2 bs;
  reserved = field_at 74 2 bs;
}

abbrev event_fields : ℕ → ExecutionEventRecord → List (ℕ × ℕ)
event_fields slack e =
    (8, e.event_sequence)
    ∷ (8, e.command_sequence)
    ∷ (8, e.source_ingress_epoch)
    ∷ (8, e.source_ingress_sequence)
    ∷ (8, e.order_id)
    ∷ (8, e.contra_order_id)
    ∷ (8, e.trade_id)
    ∷ (8, to_word e.price_ticks)
    ∷ (8, to_word e.quantity_lots)
    ∷ (8, to_word e.remaining_quantity_lots)
    ∷ (4, e.instrument_id)
    ∷ (2, e.event_type)
    ∷ (2, e.side)
    ∷ (2, e.rejection_reason)
    ∷ (2, e.reserved)
    ∷ (4, slack)
    ∷ []

unfoldable pub event_image : ℕ → ExecutionEventRecord → List ℕ
event_image slack e = write_fields (event_fields slack e)

unfoldable pub event_of_image : List ℕ → ExecutionEventRecord
event_of_image bs = record {
  event_sequence = field_at 0 8 bs;
  command_sequence = field_at 8 8 bs;
  source_ingress_epoch = field_at 16 8 bs;
  source_ingress_sequence = field_at 24 8 bs;
  order_id = field_at 32 8 bs;
  contra_order_id = field_at 40 8 bs;
  trade_id = field_at 48 8 bs;
  price_ticks = of_word (field_at 56 8 bs);
  quantity_lots = of_word (field_at 64 8 bs);
  remaining_quantity_lots = of_word (field_at 72 8 bs);
  instrument_id = field_at 80 4 bs;
  event_type = field_at 84 2 bs;
  side = field_at 86 2 bs;
  rejection_reason = field_at 88 2 bs;
  reserved = field_at 90 2 bs;
}

abbrev pub command_layout : (OrderCommandRecord → ℕ) → RecordLayout OrderCommandRecord
command_layout slack = record {
  record_type = encode_record_type order_command;
  size = 80;
  to_image = λ c. command_image (slack c) c;
  of_image = command_of_image;
}

abbrev pub event_layout : (ExecutionEventRecord → ℕ) → RecordLayout ExecutionEventRecord
event_layout slack = record {
  record_type = encode_record_type execution_event;
  size = 96;
  to_image = λ e. event_image (slack e) e;
  of_image = event_of_image;
}

of_word-of_bytes : (a : ℤ) → IsInt64 a → of_word (of_bytes (to_bytes 8 (to_word a))) ≡ a
of_word-of_bytes a h =
    ap of_word (of_bytes-to_bytes 8 (to_word a) (to_word_bound a h)) ∙ of_word-to_word a h

command_of_image-command_image :
    (slack : ℕ) (c : OrderCommandRecord)
    → FitsCommand c
    → command_of_image (command_image slack c) ≡ c
unfolding command_of_image command_image to_bytes
command_of_image-command_image slack c f = λ i. record {
  command_sequence = of_bytes-to_bytes 8 c.command_sequence f.command_sequence i;
  source_ingress_epoch = of_bytes-to_bytes 8 c.source_ingress_epoch f.source_ingress_epoch i;
  source_ingress_sequence =
      of_bytes-to_bytes 8 c.source_ingress_sequence f.source_ingress_sequence i;
  order_id = of_bytes-to_bytes 8 c.order_id f.order_id i;
  replacement_order_id = of_bytes-to_bytes 8 c.replacement_order_id f.replacement_order_id i;
  client_id = of_bytes-to_bytes 8 c.client_id f.client_id i;
  price_ticks = of_word-of_bytes c.price_ticks f.price_ticks i;
  quantity_lots = of_word-of_bytes c.quantity_lots f.quantity_lots i;
  instrument_id = of_bytes-to_bytes 4 c.instrument_id f.instrument_id i;
  command_type = of_bytes-to_bytes 2 c.command_type f.command_type i;
  side = of_bytes-to_bytes 2 c.side f.side i;
  time_in_force = of_bytes-to_bytes 2 c.time_in_force f.time_in_force i;
  reserved = of_bytes-to_bytes 2 c.reserved f.reserved i;
}

event_of_image-event_image :
    (slack : ℕ) (e : ExecutionEventRecord) → FitsEvent e → event_of_image (event_image slack e) ≡ e
unfolding event_of_image event_image to_bytes
event_of_image-event_image slack e f = λ i. record {
  event_sequence = of_bytes-to_bytes 8 e.event_sequence f.event_sequence i;
  command_sequence = of_bytes-to_bytes 8 e.command_sequence f.command_sequence i;
  source_ingress_epoch = of_bytes-to_bytes 8 e.source_ingress_epoch f.source_ingress_epoch i;
  source_ingress_sequence =
      of_bytes-to_bytes 8 e.source_ingress_sequence f.source_ingress_sequence i;
  order_id = of_bytes-to_bytes 8 e.order_id f.order_id i;
  contra_order_id = of_bytes-to_bytes 8 e.contra_order_id f.contra_order_id i;
  trade_id = of_bytes-to_bytes 8 e.trade_id f.trade_id i;
  price_ticks = of_word-of_bytes e.price_ticks f.price_ticks i;
  quantity_lots = of_word-of_bytes e.quantity_lots f.quantity_lots i;
  remaining_quantity_lots = of_word-of_bytes e.remaining_quantity_lots f.remaining_quantity_lots i;
  instrument_id = of_bytes-to_bytes 4 e.instrument_id f.instrument_id i;
  event_type = of_bytes-to_bytes 2 e.event_type f.event_type i;
  side = of_bytes-to_bytes 2 e.side f.side i;
  rejection_reason = of_bytes-to_bytes 2 e.rejection_reason f.rejection_reason i;
  reserved = of_bytes-to_bytes 2 e.reserved f.reserved i;
}

pub command_layout-IsLayout :
    (slack : OrderCommandRecord → ℕ) → IsLayout (command_layout slack) FitsCommand
unfolding command_image to_bytes
command_layout-IsLayout slack = record {
  record_type = omega arith;
  size = omega arith;
  image_size = λ c. refl;
  copied = λ c. command_of_image-command_image (slack c) c;
}

pub event_layout-IsLayout :
    (slack : ExecutionEventRecord → ℕ) → IsLayout (event_layout slack) FitsEvent
unfolding event_image to_bytes
event_layout-IsLayout slack = record {
  record_type = omega arith;
  size = omega arith;
  image_size = λ e. refl;
  copied = λ e. event_of_image-event_image (slack e) e;
}
