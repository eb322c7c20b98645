-- ===== src/App/Rendering.antt =====
-- Scenarios written from orders and cancellations: the requests, their text and the commands that they
-- stand for (scenario_loader.cpp of src/app reads such texts).
use fun_exch_macher.Common.{ℕ, ◌<◌, ℤ, pos, List, [], ◌∷◌, ◌++◌}
use fun_exch_macher.Domain.{
  OrderCommandRecord, Side, buy, sell, new_order, cancel_order, replace_order, encode_command_type,
  encode_side,
}
use fun_exch_macher.Domain.Fits.{IsInt64}
use fun_exch_macher.App.Text.{Text, codes, show_number, show_integer}
use fun_exch_macher.App.Splitting.{spaced}

-- A row of a scenario whose ids are numbers: its sequence, instrument, client and order, and then
-- what its operation needs.
pub data Request : Type 0 where
  order : (sequence instrument client id : ℕ) → Side → (price quantity : ℤ) → Request
  cancellation : (sequence instrument client id : ℕ) → Request
  replacement : (sequence instrument client id new_id : ℕ) → Side → (price quantity : ℤ) → Request

abbrev pub side_text : Side → Text
side_text buy = codes "BUY"
side_text sell = codes "SELL"

abbrev pub terms_text : Side → ℤ → ℤ → List Text
terms_text s price quantity =
    side_text s ∷ show_integer price ∷ show_integer quantity ∷ codes "GTC" ∷ []

-- The words of a row.
abbrev pub operation_text : Request → Text
operation_text (order _ _ _ _ _ _ _) = codes "NEW"
operation_text (cancellation _ _ _ _) = codes "CANCEL"
operation_text (replacement _ _ _ _ _ _ _ _) = codes "REPLACE"

abbrev pub fields_text : Request → List Text
fields_text (order n i c id s p q) =
    show_number n ∷ show_number i ∷ show_number c ∷ show_number id ∷ terms_text s p q
fields_text (cancellation n i c id) =
    show_number n ∷ show_number i ∷ show_number c ∷ show_number id ∷ []
fields_text (replacement n i c id new_id s p q) =
    show_number n
    ∷ show_number i
    ∷ show_number c
    ∷ show_number id
    ∷ show_number new_id
    ∷ terms_text s p q

abbrev pub row_text : Request → Text
row_text r = operation_text r ++ spaced (fields_text r)

unfoldable pub render : List Request → Text
render [] = []
render (r ∷ rs) = row_text r ++ (b'\n' ∷ render rs)

abbrev order_command : (n i c id : ℕ) → Side → (p q : ℤ) → OrderCommandRecord
order_command n i c id s p q = record {
  command_sequence = n;
  source_ingress_epoch = 1;
  source_ingress_sequence = n;
  order_id = id;
  replacement_order_id = 0;
  client_id = c;
  price_ticks = p;
  quantity_lots = q;
  instrument_id = i;
  command_type = encode_command_type new_order;
  side = encode_side s;
  time_in_force = 1;
  reserved = 0;
}

-- The command that a row asks for.
abbrev pub command_of : Request → OrderCommandRecord
command_of (order n i c id s p q) = order_command n i c id s p q
command_of (cancellation n i c id) = record (order_command n i c id buy (pos 0) (pos 0)) {
  command_type = encode_command_type cancel_order;
  side = 0;
}
command_of (replacement n i c id new_id s p q) = record (order_command n i c id s p q) {
  command_type = encode_command_type replace_order;
  replacement_order_id = new_id;
}

abbrev pub IsUint64 : ℕ → Type 0
IsUint64 n = n < 18446744073709551616

abbrev FitsIds : ℕ → ℕ → ℕ → ℕ → Type 0
FitsIds n i c id = IsUint64 n × (i < 4294967296) × IsUint64 c × IsUint64 id

-- The numbers of a row fit the types of the fields.
abbrev pub FitsRequest : Request → Type 0
FitsRequest (order n i c id s p q) = FitsIds n i c id × IsInt64 p × IsInt64 q
FitsRequest (cancellation n i c id) = FitsIds n i c id
FitsRequest (replacement n i c id new_id s p q) =
    FitsIds n i c id × IsUint64 new_id × IsInt64 p × IsInt64 q
