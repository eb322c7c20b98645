-- ===== src/Domain.antt =====
-- src/domain: the command and event records that the matcher and the logs share, and the numeric
-- values of the enumerations in them; core/matching_types.hpp decodes a command's type.
pub mod Fits
use Prim.Native.String.{String}
use fun_exch_macher.Common.{ℕ, ℤ, ◌==◌, if◌then◌else◌, Option, none, some, Bool, true, false}

pub data CommandType : Type 0 where
  new_order cancel_order replace_order : CommandType

pub data Side : Type 0 where
  buy sell : Side

pub data TimeInForce : Type 0 where
  gtc : TimeInForce

pub data ExecutionEventType : Type 0 where
  order_accepted order_rejected trade_executed order_rested : ExecutionEventType
  order_partially_filled order_fully_filled order_cancelled : ExecutionEventType

pub data RejectionReason : Type 0 where
  no_reason unsupported_command invalid_side invalid_price invalid_quantity : RejectionReason
  duplicate_order_id unsupported_time_in_force unknown_order_id : RejectionReason
  instrument_mismatch replace_would_duplicate_order_id : RejectionReason
  invalid_replacement_order_id : RejectionReason

-- The values of the enumerators, which the records store.
abbrev pub encode_command_type : CommandType → ℕ
encode_command_type new_order = 1
encode_command_type cancel_order = 2
encode_command_type replace_order = 3

abbrev pub encode_side : Side → ℕ
encode_side buy = 1
encode_side sell = 2

abbrev pub encode_event_type : ExecutionEventType → ℕ
encode_event_type order_accepted = 1
encode_event_type order_rejected = 2
encode_event_type trade_executed = 3
encode_event_type order_rested = 4
encode_event_type order_partially_filled = 5
encode_event_type order_fully_filled = 6
encode_event_type order_cancelled = 7

abbrev pub encode_rejection_reason : RejectionReason → ℕ
encode_rejection_reason no_reason = 0
encode_rejection_reason unsupported_command = 1
encode_rejection_reason invalid_side = 2
encode_rejection_reason invalid_price = 3
encode_rejection_reason invalid_quantity = 4
encode_rejection_reason duplicate_order_id = 5
encode_rejection_reason unsupported_time_in_force = 6
encode_rejection_reason unknown_order_id = 7
encode_rejection_reason instrument_mismatch = 8
encode_rejection_reason replace_would_duplicate_order_id = 9
encode_rejection_reason invalid_replacement_order_id = 10

pub record OrderCommandRecord : Type 0 where
  pub command_sequence : ℕ
  pub source_ingress_epoch : ℕ
  pub source_ingress_sequence : ℕ
  pub order_id : ℕ
  pub replacement_order_id : ℕ
  pub client_id : ℕ
  pub price_ticks : ℤ
  pub quantity_lots : ℤ
  pub instrument_id : ℕ
  pub command_type : ℕ
  pub side : ℕ
  pub time_in_force : ℕ
  pub reserved : ℕ

pub record ExecutionEventRecord : Type 0 where
  pub event_sequence : ℕ
  pub command_sequence : ℕ
  pub source_ingress_epoch : ℕ
  pub source_ingress_sequence : ℕ
  pub order_id : ℕ
  pub contra_order_id : ℕ
  pub trade_id : ℕ
  pub price_ticks : ℤ
  pub quantity_lots : ℤ
  pub remaining_quantity_lots : ℤ
  pub instrument_id : ℕ
  pub event_type : ℕ
  pub side : ℕ
  pub rejection_reason : ℕ
  pub reserved : ℕ

-- A switch over the values of an enumeration, with `std::nullopt` for any other value.
unfoldable pub decode_command_type : ℕ → Option CommandType
decode_command_type n =
    if n == 1
    then some new_order
    else if n == 2
    then some cancel_order
    else if n == 3
    then some replace_order
    else none

unfoldable pub decode_side : ℕ → Option Side
decode_side n = if n == 1 then some buy else if n == 2 then some sell else none

unfoldable pub decode_time_in_force : ℕ → Option TimeInForce
decode_time_in_force n = if n == 1 then some gtc else none

-- An optional value compared with a value.
abbrev pub is_command_type : Option CommandType → CommandType → Bool
is_command_type none t = false
is_command_type (some c) t = encode_command_type c == encode_command_type t

abbrev pub is_side : Option Side → Side → Bool
is_side none t = false
is_side (some buy) buy = true
is_side (some buy) sell = false
is_side (some sell) buy = false
is_side (some sell) sell = true

abbrev pub is_gtc : Option TimeInForce → Bool
is_gtc none = false
is_gtc (some gtc) = true

pub data RecordType : Type 0 where
  unknown ingress_message order_command execution_event execution_event_batch : RecordType

abbrev pub encode_record_type : RecordType → ℕ
encode_record_type unknown = 0
encode_record_type ingress_message = 100
encode_record_type order_command = 200
encode_record_type execution_event = 300
encode_record_type execution_event_batch = 301

-- The names of the values of RecordType; a value without a name is unknown too.
unfoldable pub to_string : ℕ → String
to_string value =
    if value == encode_record_type ingress_message
    then "ingress_message"
    else if value == encode_record_type order_command
    then "order_command"
    else if value == encode_record_type execution_event
    then "execution_event"
    else if value == encode_record_type execution_event_batch
    then "execution_event_batch"
    else "unknown"
