-- ===== src/App/Scenario.antt =====
-- scenario_loader.cpp of src/app: the text of a scenario into commands.
use Prim.Native.Nat.{bit_xor}
use fun_exch_macher.Common.{
  ℕ, ◌+◌, ◌*◌, ◌%◌, ℤ, pos, Bool, true, false, ◌==◌, if◌then◌else◌, Option, none, some, List, [],
  ◌∷◌, ◌++◌,
}
use fun_exch_macher.Domain.{
  OrderCommandRecord, new_order, cancel_order, replace_order, buy, sell, encode_command_type,
  encode_side,
}
use fun_exch_macher.App.Text.{
  Text, codes, equal, show_number, parse_u64, parse_i64, uppercase, words, lines,
}

abbrev pub test_instrument_id : ℕ
test_instrument_id = 77

-- FNV-1a on 64 bits.
unfoldable pub hash_token : Text → ℕ → ℕ
hash_token [] hash = hash
hash_token (c ∷ s) hash = hash_token s ((bit_xor hash c * 1099511628211) % 18446744073709551616)

abbrev or_one : ℕ → ℕ
or_one hash = if hash == 0 then 1 else hash

unfoldable pub stable_id : Text → ℕ
stable_id token = elim (parse_u64 token) [
  | some n ↦ n
  | none ↦ or_one (hash_token token 1469598103934665603)
]

unfoldable pub instrument_id : Text → ℕ
instrument_id token =
    if equal token (codes "TEST") then test_instrument_id else stable_id token % 4294967296

unfoldable pub parse_side : Text → Option ℕ
parse_side token =
    let side = uppercase token in
    if equal side (codes "BUY")
    then some (encode_side buy)
    else if equal side (codes "SELL")
    then some (encode_side sell)
    else none

-- The value of Gtc is 1.
unfoldable pub parse_tif : Text → Option ℕ
parse_tif token = if equal (uppercase token) (codes "GTC") then some 1 else none

-- What a row gives: a command, or the message of a failure.
pub data Row : Type 0 where
  loaded : OrderCommandRecord → Row
  bad : Text → Row

-- The side, price, quantity and lifetime of a row, if all four are good.
abbrev pub Terms : Type 0
Terms = record { side : ℕ; price : ℤ; quantity : ℤ; lifetime : ℕ }

abbrev pub and_terms : Option ℕ → Option ℤ → Option ℤ → Option ℕ → Option Terms
and_terms (some s) (some p) (some q) (some t) =
    some (record { side = s; price = p; quantity = q; lifetime = t })
and_terms _ _ _ _ = none

unfoldable pub parse_terms : Text → Text → Text → Text → Option Terms
parse_terms side price quantity tif =
    and_terms (parse_side side) (parse_i64 price) (parse_i64 quantity) (parse_tif tif)

abbrev pub with_terms : OrderCommandRecord → Text → Option Terms → Row
with_terms c message none = bad message
with_terms c message (some t) = loaded (record c {
  side = t.side;
  price_ticks = t.price;
  quantity_lots = t.quantity;
  time_in_force = t.lifetime;
})

unfoldable pub new_row : OrderCommandRecord → List Text → Row
new_row c (order ∷ side ∷ price ∷ quantity ∷ tif ∷ _) =
    with_terms
      (record c { command_type = encode_command_type new_order; order_id = stable_id order })
      (codes "invalid NEW field") (parse_terms side price quantity tif)
new_row c _ = bad (codes "expected NEW seq instrument client order side price quantity tif")

unfoldable pub cancel_row : OrderCommandRecord → List Text → Row
cancel_row c (order ∷ _) =
    loaded
      (record c { command_type = encode_command_type cancel_order; order_id = stable_id order })
cancel_row c [] = bad (codes "expected CANCEL seq instrument client order")

unfoldable pub replace_row : OrderCommandRecord → List Text → Row
replace_row c (old ∷ new ∷ side ∷ price ∷ quantity ∷ tif ∷ _) =
    with_terms
      (record c {
        command_type = encode_command_type replace_order;
        order_id = stable_id old;
        replacement_order_id = stable_id new;
      })
      (codes "invalid REPLACE field") (parse_terms side price quantity tif)
replace_row c _ =
    bad (codes "expected REPLACE seq instrument client old_order new_order side price quantity tif")

-- The command before its operation is looked at.
abbrev pub started : ℕ → Text → Text → OrderCommandRecord
started sequence instrument client = record {
  command_sequence = sequence;
  source_ingress_epoch = 1;
  source_ingress_sequence = sequence;
  order_id = 0;
  replacement_order_id = 0;
  client_id = stable_id client;
  price_ticks = pos 0;
  quantity_lots = pos 0;
  instrument_id = instrument_id instrument;
  command_type = 0;
  side = 0;
  time_in_force = 1;
  reserved = 0;
}

-- The switch on the operation, which is in upper case.
unfoldable pub operation_row : Text → OrderCommandRecord → List Text → Row
operation_row op c rest =
    if equal op (codes "NEW")
    then new_row c rest
    else if equal op (codes "CANCEL")
    then cancel_row c rest
    else if equal op (codes "REPLACE")
    then replace_row c rest
    else bad (codes "unknown operation: " ++ op)

unfoldable pub parse_row : List Text → Row
parse_row (op ∷ sequence ∷ instrument ∷ client ∷ rest) = elim (parse_u64 sequence) [
  | none ↦ bad (codes "expected operation, sequence, instrument, and client")
  | some n ↦ operation_row (uppercase op) (started n instrument client) rest
]
parse_row _ = bad (codes "expected operation, sequence, instrument, and client")

pub record ScenarioLoadResult : Type 0 where
  pub ok : Bool
  pub error : Text
  pub commands : List OrderCommandRecord

unfoldable pub failed_scenario : Text → ScenarioLoadResult
failed_scenario error = record { ok = false; error = error; commands = [] }

unfoldable pub line_error : ℕ → Text → Text
line_error line_number message =
    codes "line " ++ (show_number line_number ++ (codes ": " ++ message))

-- Empty lines and comments.
unfoldable pub is_skipped : Text → Bool
is_skipped [] = true
is_skipped (c ∷ s) = c == b'#'

-- The loop over the lines, behind `line_number` lines and with the commands so far.
unfoldable pub load_lines : ℕ → List OrderCommandRecord → List Text → ScenarioLoadResult
load_lines line_number commands [] = record { ok = true; error = []; commands = commands }
load_lines line_number commands (line ∷ rest) =
    let skipped = load_lines (line_number + 1) commands rest in
    let read : ScenarioLoadResult = elim (parse_row (words line)) [
      | bad message ↦ failed_scenario (line_error (line_number + 1) message)
      | loaded c ↦ load_lines (line_number + 1) (commands ++ (c ∷ [])) rest
    ] in
    if is_skipped line then skipped else read

-- `path` is the text of the path; the file is absent or has a text.
unfoldable pub load_scenario : Text → Option Text → ScenarioLoadResult
load_scenario path none = failed_scenario (codes "cannot open scenario file: " ++ path)
load_scenario path (some text) = load_lines 0 [] (lines text)
