-- ===== src/Replay/Differing.antt =====
-- The field that EventComparator::compare (src/core/src/replay.cpp) names, against the order of its
-- tests.
use fun_exch_macher.Common.{
  ◌≡◌, refl, ℕ, Bool, true, false, not, ◌==◌, ==_iff, if◌then◌else◌, ◌⊎◌, inl, inr, List, [], ◌∷◌,
}
use fun_exch_macher.Common.Int.{ℤ, eqb_ℤ, eqb_ℤ_iff}
use fun_exch_macher.Domain.{ExecutionEventRecord}
use fun_exch_macher.Replay.Compare.{
  EventField, EventComparison, no_field, event_type, event_sequence, command_sequence,
  source_ingress_epoch, source_ingress_sequence, instrument_id, order_id, contra_order_id, side,
  price_ticks, quantity_lots, remaining_quantity_lots, trade_id, rejection_reason, reserved,
  compare, compare_quantities,
}

-- Two events agree in a field.
abbrev pub SameIn : EventField → ExecutionEventRecord → ExecutionEventRecord → Type 0
SameIn no_field a b = Unit
SameIn event_type a b = a.event_type ≡ b.event_type
SameIn event_sequence a b = a.event_sequence ≡ b.event_sequence
SameIn command_sequence a b = a.command_sequence ≡ b.command_sequence
SameIn source_ingress_epoch a b = a.source_ingress_epoch ≡ b.source_ingress_epoch
SameIn source_ingress_sequence a b = a.source_ingress_sequence ≡ b.source_ingress_sequence
SameIn instrument_id a b = a.instrument_id ≡ b.instrument_id
SameIn order_id a b = a.order_id ≡ b.order_id
SameIn contra_order_id a b = a.contra_order_id ≡ b.contra_order_id
SameIn side a b = a.side ≡ b.side
SameIn price_ticks a b = a.price_ticks ≡ b.price_ticks
SameIn quantity_lots a b = a.quantity_lots ≡ b.quantity_lots
SameIn remaining_quantity_lots a b = a.remaining_quantity_lots ≡ b.remaining_quantity_lots
SameIn trade_id a b = a.trade_id ≡ b.trade_id
SameIn rejection_reason a b = a.rejection_reason ≡ b.rejection_reason
SameIn reserved a b = a.reserved ≡ b.reserved

-- Of these fields, in their order, the events differ in `f` and agree in all before it.
abbrev pub FirstDifference :
    List EventField → ExecutionEventRecord → ExecutionEventRecord → EventField → Type 0
FirstDifference [] a b f = ⊥
FirstDifference (g ∷ gs) a b f =
    ((f ≡ g) × ¬ SameIn g a b) ⊎ (SameIn g a b × FirstDifference gs a b f)

abbrev later_fields : List EventField
later_fields =
    contra_order_id ∷ side ∷ price_ticks ∷ quantity_lots ∷ remaining_quantity_lots ∷ trade_id
    ∷ rejection_reason ∷ reserved ∷ []

abbrev pub all_fields : List EventField
all_fields =
    event_type ∷ event_sequence ∷ command_sequence ∷ source_ingress_epoch ∷ source_ingress_sequence
    ∷ instrument_id ∷ order_id ∷ later_fields

-- A comparison that names the first difference, if it does not answer equal.
abbrev Names :
    List EventField → ExecutionEventRecord → ExecutionEventRecord → EventComparison → Type 0
Names gs a b r = (r.equal ≡ false) → FirstDifference gs a b r.field

module _ (a b : ExecutionEventRecord) where
  -- One test of the ladder.
  rung :
      (g : EventField) (gs : List EventField) (test : Bool) (rest : EventComparison)
      → (test ≡ true → SameIn g a b)
      → (SameIn g a b → test ≡ true)
      → Names gs a b rest
      → Names (g ∷ gs) a b (if not test then record { equal = false; field = g } else rest)
  rung g gs true rest sound complete h r = inr (sound refl, h r)
  rung g gs false rest sound complete h r = inl (refl, λ same. cc (complete same))

  rung_ℕ :
      (g : EventField) (gs : List EventField) (x y : ℕ) (rest : EventComparison)
      → (x ≡ y → SameIn g a b)
      → (SameIn g a b → x ≡ y)
      → Names gs a b rest
      → Names (g ∷ gs) a b (if not (x == y) then record { equal = false; field = g } else rest)
  rung_ℕ g gs x y rest to from =
      rung g gs (x == y) rest (λ e. to ((==_iff x y).0 e)) (λ s. (==_iff x y).1 (from s))

  rung_ℤ :
      (g : EventField) (gs : List EventField) (x y : ℤ) (rest : EventComparison)
      → (x ≡ y → SameIn g a b)
      → (SameIn g a b → x ≡ y)
      → Names gs a b rest
      → Names (g ∷ gs) a b (if not (eqb_ℤ x y) then record { equal = false; field = g } else rest)
  rung_ℤ g gs x y rest to from =
      rung g gs (eqb_ℤ x y) rest (λ e. to ((eqb_ℤ_iff x y).0 e)) (λ s. (eqb_ℤ_iff x y).1 (from s))

compare_quantities-Names :
    (a b : ExecutionEventRecord) → Names later_fields a b (compare_quantities a b)
unfolding compare_quantities
compare_quantities-Names a b =
    rung_ℕ a b contra_order_id
      (side ∷ price_ticks ∷ quantity_lots ∷ remaining_quantity_lots ∷ trade_id ∷ rejection_reason
        ∷ reserved ∷ [])
      a.contra_order_id b.contra_order_id _ (λ e. e) (λ e. e)
      (rung_ℕ a b side
        (price_ticks ∷ quantity_lots ∷ remaining_quantity_lots ∷ trade_id ∷ rejection_reason
          ∷ reserved ∷ [])
        a.side b.side _ (λ e. e) (λ e. e)
        (rung_ℤ a b price_ticks
          (quantity_lots ∷ remaining_quantity_lots ∷ trade_id ∷ rejection_reason ∷ reserved ∷ [])
          a.price_ticks b.price_ticks _ (λ e. e) (λ e. e)
          (rung_ℤ a b quantity_lots
            (remaining_quantity_lots ∷ trade_id ∷ rejection_reason ∷ reserved ∷ []) a.quantity_lots
            b.quantity_lots _ (λ e. e) (λ e. e)
            (rung_ℤ a b remaining_quantity_lots (trade_id ∷ rejection_reason ∷ reserved ∷ [])
              a.remaining_quantity_lots b.remaining_quantity_lots _ (λ e. e) (λ e. e)
              (rung_ℕ a b trade_id (rejection_reason ∷ reserved ∷ []) a.trade_id b.trade_id _
                (λ e. e) (λ e. e)
                (rung_ℕ a b rejection_reason (reserved ∷ []) a.rejection_reason b.rejection_reason _
                  (λ e. e) (λ e. e)
                  (rung_ℕ a b reserved [] a.reserved b.reserved _ (λ e. e) (λ e. e)
                    (λ r. absurd (cc)))))))))

pub compare-names :
    (a b : ExecutionEventRecord)
    → (compare a b).equal ≡ false
    → FirstDifference all_fields a b (compare a b).field
unfolding compare
compare-names a b =
    rung_ℕ a b event_type
      (event_sequence ∷ command_sequence ∷ source_ingress_epoch ∷ source_ingress_sequence
        ∷ instrument_id ∷ order_id ∷ later_fields)
      a.event_type b.event_type _ (λ e. e) (λ e. e)
      (rung_ℕ a b event_sequence
        (command_sequence ∷ source_ingress_epoch ∷ source_ingress_sequence ∷ instrument_id
          ∷ order_id ∷ later_fields)
        a.event_sequence b.event_sequence _ (λ e. e) (λ e. e)
        (rung_ℕ a b command_sequence
          (source_ingress_epoch ∷ source_ingress_sequence ∷ instrument_id ∷ order_id ∷ later_fields)
          a.command_sequence b.command_sequence _ (λ e. e) (λ e. e)
          (rung_ℕ a b source_ingress_epoch
            (source_ingress_sequence ∷ instrument_id ∷ order_id ∷ later_fields)
            a.source_ingress_epoch b.source_ingress_epoch _ (λ e. e) (λ e. e)
            (rung_ℕ a b source_ingress_sequence (instrument_id ∷ order_id ∷ later_fields)
              a.source_ingress_sequence b.source_ingress_sequence _ (λ e. e) (λ e. e)
              (rung_ℕ a b instrument_id (order_id ∷ later_fields) a.instrument_id b.instrument_id _
                (λ e. e) (λ e. e)
                (rung_ℕ a b order_id later_fields a.order_id b.order_id _ (λ e. e) (λ e. e)
                  (compare_quantities-Names a b)))))))
