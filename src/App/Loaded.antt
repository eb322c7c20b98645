-- ===== src/App/Loaded.antt =====
-- The fields of the commands that load_scenario (scenario_loader.cpp) gives, against their machine
-- types.
use fun_exch_macher.Common.{
  ℕ, ◌+◌, ◌%◌, ◌==◌, ◌<◌, ◌≡◌, refl, ℤ, false, if_either, Bool-cases, Option-cases, inl, inr,
  Option, none, some, List, [], ◌∷◌, ◌++◌, All, All-append, arith,
}
use fun_exch_macher.Domain.{OrderCommandRecord}
use fun_exch_macher.Domain.Fits.{IsInt64, FitsCommand}
use fun_exch_macher.App.Text.{Text, codes, equal, parse_u64, parse_i64, uppercase, words, lines}
use fun_exch_macher.App.Scenario.{
  hash_token, stable_id, instrument_id, parse_side, parse_tif, Row, loaded, bad, Terms, parse_terms,
  and_terms, with_terms, new_row, cancel_row, replace_row, started, operation_row, parse_row,
  is_skipped, load_lines, load_scenario, failed_scenario,
}

parse_u64_bound : (s : Text) (n : ℕ) → parse_u64 s ≡ some n → n < 18446744073709551616
unfolding parse_u64
parse_u64_bound s n h = ground arith

parse_i64-IsInt64 : (s : Text) (a : ℤ) → parse_i64 s ≡ some a → IsInt64 a
unfolding parse_i64
parse_i64-IsInt64 [] a h = absurd (cc)
parse_i64-IsInt64 (c ∷ s) a h = ground arith

hash_token_bound :
    (s : Text) (n : ℕ) → n < 18446744073709551616 → hash_token s n < 18446744073709551616
unfolding hash_token
hash_token_bound [] n h = h
hash_token_bound (c ∷ s) n h = hash_token_bound s _ (omega arith)

stable_id_bound : (s : Text) → stable_id s < 18446744073709551616
unfolding stable_id
stable_id_bound s = elim (Option-cases (parse_u64 s)) [
  | inr (n, e) ↦ rw (e, stable_id) (parse_u64_bound s n e)
  | inl none_read ↦
      let hashed = hash_token_bound s 1469598103934665603 (omega arith) in
      rw (none_read, stable_id)
        (if_either (λ (n : ℕ). n < 18446744073709551616) (hash_token s 1469598103934665603 == 0) 1
          (hash_token s 1469598103934665603) (omega arith) hashed)
]

instrument_id_bound : (s : Text) → instrument_id s < 4294967296
unfolding instrument_id
instrument_id_bound s =
    if_either (λ (n : ℕ). n < 4294967296) (equal s (codes "TEST")) 77 (stable_id s % 4294967296)
      (omega arith) (omega arith)

parse_side_bound : (s : Text) (n : ℕ) → parse_side s ≡ some n → n < 65536
unfolding parse_side
parse_side_bound s n h = ground arith

parse_tif_bound : (s : Text) (n : ℕ) → parse_tif s ≡ some n → n < 65536
unfolding parse_tif
parse_tif_bound s n h = ground arith

abbrev FitsRow : Row → Type 0
FitsRow (loaded c) = FitsCommand c
FitsRow (bad message) = Unit {0}

record FitsTerms (t : Terms) : Type 0 where
  side : t.side < 65536
  price : IsInt64 t.price
  quantity : IsInt64 t.quantity
  lifetime : t.lifetime < 65536

abbrev FitsOption : Option Terms → Type 0
FitsOption none = Unit {0}
FitsOption (some t) = FitsTerms t

parse_terms-Fits : (s p q t : Text) → FitsOption (parse_terms s p q t)
unfolding parse_terms
parse_terms-Fits s p q t =
    go (parse_side s) (parse_i64 p) (parse_i64 q) (parse_tif t) (parse_side_bound s)
      (parse_i64-IsInt64 p) (parse_i64-IsInt64 q) (parse_tif_bound t)
  where
    go :
        (a : Option ℕ) (b c : Option ℤ) (d : Option ℕ)
        → ((n : ℕ) → a ≡ some n → n < 65536)
        → ((x : ℤ) → b ≡ some x → IsInt64 x)
        → ((x : ℤ) → c ≡ some x → IsInt64 x)
        → ((n : ℕ) → d ≡ some n → n < 65536)
        → FitsOption (and_terms a b c d)
    go (some a) (some b) (some c) (some d) ha hb hc hd = record {
      side = ha a refl;
      price = hb b refl;
      quantity = hc c refl;
      lifetime = hd d refl;
    }
    go none b c d ha hb hc hd = tt
    go (some a) none c d ha hb hc hd = tt
    go (some a) (some b) none d ha hb hc hd = tt
    go (some a) (some b) (some c) none ha hb hc hd = tt

with_terms-Fits :
    (c : OrderCommandRecord) (message : Text) (o : Option Terms)
    → FitsCommand c
    → FitsOption o
    → FitsRow (with_terms c message o)
with_terms-Fits c message none f h = tt
with_terms-Fits c message (some t) f h = record {
  command_sequence = f.command_sequence;
  source_ingress_epoch = f.source_ingress_epoch;
  source_ingress_sequence = f.source_ingress_sequence;
  order_id = f.order_id;
  replacement_order_id = f.replacement_order_id;
  client_id = f.client_id;
  price_ticks = h.price;
  quantity_lots = h.quantity;
  instrument_id = f.instrument_id;
  command_type = f.command_type;
  side = h.side;
  time_in_force = h.lifetime;
  reserved = f.reserved;
}

-- A command before its terms, with a type and ids.
named-Fits :
    (n kind id id' : ℕ) (i c : Text)
    → n < 18446744073709551616
    → kind < 65536
    → id < 18446744073709551616
    → id' < 18446744073709551616
    → FitsCommand
        (record (started n i c) { command_type = kind; order_id = id; replacement_order_id = id' })
named-Fits n kind id id' i c h k a b = record {
  command_sequence = h;
  source_ingress_epoch = omega arith;
  source_ingress_sequence = h;
  order_id = a;
  replacement_order_id = b;
  client_id = stable_id_bound c;
  price_ticks = omega arith;
  quantity_lots = omega arith;
  instrument_id = instrument_id_bound i;
  command_type = k;
  side = omega arith;
  time_in_force = omega arith;
  reserved = omega arith;
}

module _ (n : ℕ) (i c : Text) (h : n < 18446744073709551616) where
  new_row-Fits : (rest : List Text) → FitsRow (new_row (started n i c) rest)
  unfolding new_row
  new_row-Fits (o ∷ s ∷ p ∷ q ∷ t ∷ _) =
      with_terms-Fits _ _ (parse_terms s p q t)
        (named-Fits n 1 (stable_id o) 0 i c h (omega arith) (stable_id_bound o) (omega arith))
        (parse_terms-Fits s p q t)
  new_row-Fits [] = tt
  new_row-Fits (o ∷ []) = tt
  new_row-Fits (o ∷ s ∷ []) = tt
  new_row-Fits (o ∷ s ∷ p ∷ []) = tt
  new_row-Fits (o ∷ s ∷ p ∷ q ∷ []) = tt

  cancel_row-Fits : (rest : List Text) → FitsRow (cancel_row (started n i c) rest)
  unfolding cancel_row
  cancel_row-Fits (o ∷ _) =
      named-Fits n 2 (stable_id o) 0 i c h (omega arith) (stable_id_bound o) (omega arith)
  cancel_row-Fits [] = tt

  replace_row-Fits : (rest : List Text) → FitsRow (replace_row (started n i c) rest)
  unfolding replace_row
  replace_row-Fits (o ∷ o' ∷ s ∷ p ∷ q ∷ t ∷ _) =
      with_terms-Fits _ _ (parse_terms s p q t)
        (named-Fits n 3 (stable_id o) (stable_id o') i c h (omega arith) (stable_id_bound o)
          (stable_id_bound o'))
        (parse_terms-Fits s p q t)
  replace_row-Fits [] = tt
  replace_row-Fits (o ∷ []) = tt
  replace_row-Fits (o ∷ o' ∷ []) = tt
  replace_row-Fits (o ∷ o' ∷ s ∷ []) = tt
  replace_row-Fits (o ∷ o' ∷ s ∷ p ∷ []) = tt
  replace_row-Fits (o ∷ o' ∷ s ∷ p ∷ q ∷ []) = tt

  operation_row-Fits :
      (op : Text) (rest : List Text) → FitsRow (operation_row op (started n i c) rest)
  unfolding operation_row
  operation_row-Fits op rest =
      if_either (λ (r : Row). FitsRow r) (equal op (codes "NEW")) _ _ (new_row-Fits rest)
        (if_either (λ (r : Row). FitsRow r) (equal op (codes "CANCEL")) _ _ (cancel_row-Fits rest)
          (if_either (λ (r : Row). FitsRow r) (equal op (codes "REPLACE")) _ _
            (replace_row-Fits rest) tt))

parse_row-Fits : (ws : List Text) → FitsRow (parse_row ws)
unfolding parse_row
parse_row-Fits [] = tt
parse_row-Fits (op ∷ []) = tt
parse_row-Fits (op ∷ s ∷ []) = tt
parse_row-Fits (op ∷ s ∷ i ∷ []) = tt
parse_row-Fits (op ∷ s ∷ i ∷ c ∷ rest) = elim (Option-cases (parse_u64 s)) [
  | inl missing ↦ rw (missing, parse_row) tt
  | inr (n, e) ↦
      rw (e, parse_row) (operation_row-Fits n i c (parse_u64_bound s n e) (uppercase op) rest)
]

load_lines-Fits :
    (n : ℕ) (commands : List OrderCommandRecord) (rest : List Text)
    → All FitsCommand commands
    → All FitsCommand (load_lines n commands rest).commands
unfolding load_lines failed_scenario
load_lines-Fits n commands [] h = h
load_lines-Fits n commands (line ∷ rest) h = elim (Bool-cases (is_skipped line)) [
  | inl skip ↦ rw (skip, load_lines) (load_lines-Fits (n + 1) commands rest h)
  | inr keep ↦ go keep (parse_row (words line)) refl (parse_row-Fits (words line)) (λ c f.
      load_lines-Fits (n + 1) (commands ++ (c ∷ [])) rest
        (All-append FitsCommand commands (c ∷ []) h (f, tt)))
]
  where
    go :
        is_skipped line ≡ false
        → (r : Row) → parse_row (words line) ≡ r
        → FitsRow r
        → ((c : OrderCommandRecord)
            → FitsCommand c
            → All FitsCommand (load_lines (n + 1) (commands ++ (c ∷ [])) rest).commands)
        → All FitsCommand (load_lines n commands (line ∷ rest)).commands
    go keep (bad message) e f later = rw (keep, e, load_lines) tt
    go keep (loaded c) e f later = rw (keep, e, load_lines) (later c f)

-- Every command that a scenario's text gives has fields that fit their machine types.
pub load_scenario-Fits :
    (path : Text) (file : Option Text) → All FitsCommand (load_scenario path file).commands
unfolding load_scenario failed_scenario
load_scenario-Fits path none = tt
load_scenario-Fits path (some text) = load_lines-Fits 0 [] (lines text) tt
