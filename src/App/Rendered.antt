-- ===== src/App/Rendered.antt =====
-- Scenarios written from orders and cancellations, and what load_scenario (scenario_loader.cpp of
-- src/app) makes of their text.
use fun_exch_macher.Common.{
  ℕ, ◌+◌, ◌<◌, ◌≡◌, refl, sym, ◌∙◌, ℤ, pos, negsuc, true, false, some, List, [], ◌∷◌, ◌++◌, map,
  All, arith,
}
use mathlib.Core.List.{append_assoc, append-nil}
use fun_exch_macher.Domain.{OrderCommandRecord, Side, buy, sell, encode_side}
use fun_exch_macher.Domain.Fits.{IsInt64}
use fun_exch_macher.App.Text.{
  Text, codes, equal, is_space, show_number, show_integer, upper, uppercase, lines,
}
use fun_exch_macher.App.Scenario.{
  stable_id, instrument_id, parse_side, parse_tif, loaded, parse_terms, new_row, cancel_row,
  replace_row, operation_row, parse_row, is_skipped, load_lines, load_scenario,
}
use fun_exch_macher.App.Numerals.{
  IsDigit, show_number-IsNumeral, parse_u64-show_number, parse_i64-show_integer,
}
use fun_exch_macher.App.Splitting.{IsWord, words-spaced, lines-row, spaced-IsRow}
use fun_exch_macher.App.Rendering.{
  Request, side_text, terms_text, operation_text, fields_text, row_text, render, command_of,
  IsUint64, FitsRequest, order, cancellation, replacement,
}

-- Digits make a word, which is not the name of the test instrument.
digits-spaceless : (s : Text) → All IsDigit s → All (λ c. is_space c ≡ false) s
digits-spaceless [] h = tt
digits-spaceless (c ∷ s) h = (ground (arith, h.0), digits-spaceless s h.1)

show_number-IsWord : (n : ℕ) → IsWord (show_number n)
show_number-IsWord n =
    let h = show_number-IsNumeral n in (h.0, digits-spaceless (show_number n) h.1)

show_integer-IsWord : (a : ℤ) → IsWord (show_integer a)
unfolding show_integer
show_integer-IsWord (pos n) = show_number-IsWord n
show_integer-IsWord (negsuc n) = (omega arith, (refl, (show_number-IsWord (n + 1)).1))

not_test : (s : Text) → All IsDigit s → equal s (codes "TEST") ≡ false
unfolding equal
not_test [] h = refl
not_test (c ∷ s) h = ground (arith, h.0)

stable_id-show_number : (n : ℕ) → IsUint64 n → stable_id (show_number n) ≡ n
unfolding stable_id
stable_id-show_number n h = rw (parse_u64-show_number n h, stable_id) refl

instrument_id-show_number : (n : ℕ) → n < 4294967296 → instrument_id (show_number n) ≡ n
unfolding instrument_id
instrument_id-show_number n h =
    rw
      (
        not_test (show_number n) (show_number-IsNumeral n).1,
        stable_id-show_number n (omega (arith, h)),
      )
      (omega (arith, h))

parse_terms-terms_text :
    (s : Side) (p q : ℤ)
    → IsInt64 p
    → IsInt64 q
    → parse_terms (side_text s) (show_integer p) (show_integer q) (codes "GTC")
      ≡ some (record { side = encode_side s; price = p; quantity = q; lifetime = 1 })
unfolding parse_terms parse_side parse_tif uppercase upper equal
parse_terms-terms_text buy p q hp hq =
    rw (parse_i64-show_integer p hp, parse_i64-show_integer q hq) refl
parse_terms-terms_text sell p q hp hq =
    rw (parse_i64-show_integer p hp, parse_i64-show_integer q hq) refl

-- The row of a request, read.
parse_row-request :
    (r : Request)
    → FitsRequest r
    → parse_row (operation_text r ∷ fields_text r) ≡ loaded (command_of r)
unfolding parse_row operation_row new_row cancel_row replace_row uppercase upper equal
parse_row-request (order n i c id s p q) h =
    rw
      (
        parse_row,
        parse_u64-show_number n h.0.0,
        instrument_id-show_number i h.0.1,
        stable_id-show_number c h.0.2,
        stable_id-show_number id h.0.3,
        parse_terms-terms_text s p q h.1 h.2,
      )
      refl
parse_row-request (cancellation n i c id) h =
    rw
      (
        parse_row,
        parse_u64-show_number n h.0,
        instrument_id-show_number i h.1,
        stable_id-show_number c h.2,
        stable_id-show_number id h.3,
      )
      refl
parse_row-request (replacement n i c id new_id s p q) h =
    rw
      (
        parse_row,
        parse_u64-show_number n h.0.0,
        instrument_id-show_number i h.0.1,
        stable_id-show_number c h.0.2,
        stable_id-show_number id h.0.3,
        stable_id-show_number new_id h.1,
        parse_terms-terms_text s p q h.2 h.3,
      )
      refl

side_text-IsWord : (s : Side) → IsWord (side_text s)
side_text-IsWord buy = (omega arith, (refl, (refl, (refl, tt))))
side_text-IsWord sell = (omega arith, (refl, (refl, (refl, (refl, tt)))))

terms_text-AreWords : (s : Side) (p q : ℤ) → All IsWord (terms_text s p q)
terms_text-AreWords s p q = (
  side_text-IsWord s,
  (show_integer-IsWord p, (show_integer-IsWord q, ((omega arith, (refl, (refl, (refl, tt)))), tt))),
)

ids-AreWords :
    (n i c id : ℕ) (ts : List Text)
    → All IsWord ts
    → All IsWord (show_number n ∷ show_number i ∷ show_number c ∷ show_number id ∷ ts)
ids-AreWords n i c id ts h = (
  show_number-IsWord n,
  (show_number-IsWord i, (show_number-IsWord c, (show_number-IsWord id, h))),
)

fields_text-AreWords : (r : Request) → All IsWord (fields_text r)
fields_text-AreWords (order n i c id s p q) =
    ids-AreWords n i c id (terms_text s p q) (terms_text-AreWords s p q)
fields_text-AreWords (cancellation n i c id) = ids-AreWords n i c id [] tt
fields_text-AreWords (replacement n i c id new_id s p q) =
    ids-AreWords n i c id (show_number new_id ∷ terms_text s p q)
      (show_number-IsWord new_id, terms_text-AreWords s p q)

operation_text-IsWord : (r : Request) → IsWord (operation_text r)
operation_text-IsWord (order _ _ _ _ _ _ _) = (omega arith, (refl, (refl, (refl, tt))))
operation_text-IsWord (cancellation _ _ _ _) =
    (omega arith, (refl, (refl, (refl, (refl, (refl, (refl, tt)))))))
operation_text-IsWord (replacement _ _ _ _ _ _ _ _) =
    (omega arith, (refl, (refl, (refl, (refl, (refl, (refl, (refl, tt))))))))

is_skipped-row_text : (r : Request) → is_skipped (row_text r) ≡ false
unfolding is_skipped
is_skipped-row_text (order _ _ _ _ _ _ _) = refl
is_skipped-row_text (cancellation _ _ _ _) = refl
is_skipped-row_text (replacement _ _ _ _ _ _ _ _) = refl

load_lines-render :
    (rs : List Request) (n : ℕ) (commands : List OrderCommandRecord)
    → All FitsRequest rs
    → load_lines n commands (lines (render rs))
      ≡ record { ok = true; error = []; commands = commands ++ map command_of rs }
unfolding render load_lines
load_lines-render [] n commands h =
    unfold load_lines lines in
    λ k. record { ok = true; error = []; commands = sym (append-nil commands) k }
load_lines-render (r ∷ rs) n commands h =
    let op = operation_text-IsWord r in
    let fields = fields_text-AreWords r in
    rw
      (
        lines-row (row_text r) (render rs)
            (spaced-IsRow (operation_text r) (fields_text r) op fields),
        load_lines,
        is_skipped-row_text r,
        words-spaced (operation_text r) (fields_text r) op fields,
        parse_row-request r h.0,
      )
      (load_lines-render rs (n + 1) (commands ++ (command_of r ∷ [])) h.1 ∙ λ k. record {
        ok = true;
        error = [];
        commands = append_assoc commands (command_of r ∷ []) (map command_of rs) k;
      })

-- A scenario written from orders, cancellations and replacements, with ids, prices and quantities in
-- decimal that fit their fields, loads, and gives exactly the commands it was written from, in order.
pub load_scenario-render :
    (path : Text) (rs : List Request)
    → All FitsRequest rs
    → load_scenario path (some (render rs))
      ≡ record { ok = true; error = []; commands = map command_of rs }
unfolding load_scenario
load_scenario-render path rs h = load_lines-render rs 0 [] h
