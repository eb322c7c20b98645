-- ===== src/Common/Dict.antt =====
-- std::unordered_map<std::uint64_t, V> as an association list: a write keeps the place of a key, or
-- adds it at the end. Only `values` shows an order of the entries.
use Prim.Native.Nat.{ℕ, ◌+◌, ◌≤◌}
use mathlib.Core.Path.{◌≡◌, refl, subst}
use mathlib.Core.Logic.{inl, inr}
use mathlib.Core.Bool.{Bool, true, false}
use mathlib.Core.Option.{Option, none, some, some_inj}
use mathlib.Core.List.{List, [], ◌∷◌}
use native.Mathlib.Omega.{arith}
use fun_exch_macher.Common.Compare.{◌==◌, if◌then◌else◌, if_either, Bool-cases}
use fun_exch_macher.Common.Lists.{length, All}

abbrev pub Dict {ℓ} : Type ℓ → Type ℓ
Dict V = List (ℕ × V)

abbrev pub to_nat : Bool → ℕ
to_nat true = 1
to_nat false = 0

abbrev pub is_some {ℓ} : {A : Type ℓ} → Option A → Bool
is_some none = false
is_some (some _) = true

module _ {ℓ} {V : Type ℓ} where
  unfoldable pub lookup : ℕ → Dict V → Option V
  lookup key [] = none
  lookup key ((id, value) ∷ rest) = if id == key then some value else lookup key rest

  unfoldable pub insert : ℕ → V → Dict V → Dict V
  insert key value [] = (key, value) ∷ []
  insert key value ((id, old) ∷ rest) =
      if id == key then (key, value) ∷ rest else (id, old) ∷ insert key value rest

  unfoldable pub erase : ℕ → Dict V → Dict V
  erase key [] = []
  erase key ((id, old) ∷ rest) = if id == key then rest else (id, old) ∷ erase key rest

  unfoldable pub contains : ℕ → Dict V → Bool
  contains k m = is_some (lookup k m)

  unfoldable pub count : ℕ → Dict V → ℕ
  count k [] = 0
  count k ((j, w) ∷ m) = to_nat (j == k) + count k m

  pub lookup-insert :
      (written read : ℕ) (value : V) (d : Dict V)
      → lookup read (insert written value d)
        ≡ (if written == read then some value else lookup read d)
  unfolding lookup insert
  lookup-insert written read value [] = refl
  lookup-insert written read value (entry ∷ rest) =
      ground (arith, lookup-insert written read value rest)

  pub lookup-eq-none : (k : ℕ) (m : Dict V) → count k m ≡ 0 → lookup k m ≡ none
  unfolding lookup count
  lookup-eq-none k [] h = refl
  lookup-eq-none k ((i, w) ∷ m) h = ground (arith, lookup-eq-none k m)

  pub count-eq-zero : (k : ℕ) (m : Dict V) → lookup k m ≡ none → count k m ≡ 0
  unfolding lookup count
  count-eq-zero k [] h = refl
  count-eq-zero k ((i, w) ∷ m) h = ground (arith, count-eq-zero k m)

  pub lookup-erase :
      (k j : ℕ) (m : Dict V)
      → count k m ≤ 1
      → lookup j (erase k m) ≡ (if k == j then none else lookup j m)
  unfolding lookup erase count
  lookup-erase k j [] h = ground arith
  lookup-erase k j ((i, w) ∷ m) h = ground (arith, lookup-erase k j m, lookup-eq-none k m)

  -- A key that is there is overwritten, a key that is not is added.
  pub count-insert :
      (k j : ℕ) (v : V) (m : Dict V)
      → count j (insert k v m)
        ≡ (if k == j then (if contains k m then count j m else 1) else count j m)
  unfolding count insert contains lookup
  count-insert k j v [] = ground arith
  count-insert k j v ((i, w) ∷ m) = ground (arith, count-insert k j v m)

  pub count-erase :
      (k j : ℕ) (m : Dict V)
      → count j (erase k m) + (if k == j then to_nat (contains k m) else 0) ≡ count j m
  unfolding count erase contains lookup
  count-erase k j [] = ground arith
  count-erase k j ((i, w) ∷ m) = ground (arith, count-erase k j m)

  pub length-insert :
      (k : ℕ) (v : V) (m : Dict V)
      → length (insert k v m) ≡ (if contains k m then length m else length m + 1)
  unfolding insert contains lookup
  length-insert k v [] = omega arith
  length-insert k v ((i, w) ∷ m) = ground (arith, length-insert k v m)

  pub length-erase : (k : ℕ) (m : Dict V) → length (erase k m) + to_nat (contains k m) ≡ length m
  unfolding erase contains lookup
  length-erase k [] = omega arith
  length-erase k ((i, w) ∷ m) = ground (arith, length-erase k m)

  -- A write of the value that is there changes nothing.
  pub insert_same : (k : ℕ) (v : V) (m : Dict V) → lookup k m ≡ some v → insert k v m ≡ m
  unfolding lookup insert
  insert_same k v [] h = cc
  insert_same k v ((i, w) ∷ m) h = ground (arith, insert_same k v m)

-- What holds of every value, through a write and an erasure.
module _ {ℓ κ} {V : Type ℓ} (P : V → Type κ) where
  pub insert-All :
      (k : ℕ) (v : V) (m : Dict V)
      → P v
      → All (λ entry. P entry.1) m
      → All (λ entry. P entry.1) (insert k v m)
  unfolding insert
  insert-All k v [] p h = (p, tt)
  insert-All k v ((j, w) ∷ m) p h =
      if_either (All (λ (entry : ℕ × V). P entry.1)) (j == k) ((k, v) ∷ m) ((j, w) ∷ insert k v m)
        (p, h.1) (h.0, insert-All k v m p h.1)

  pub erase-All :
      (k : ℕ) (m : Dict V) → All (λ entry. P entry.1) m → All (λ entry. P entry.1) (erase k m)
  unfolding erase
  erase-All k [] h = tt
  erase-All k ((j, w) ∷ m) h =
      if_either (All (λ (entry : ℕ × V). P entry.1)) (j == k) m ((j, w) ∷ erase k m) h.1
        (h.0, erase-All k m h.1)

  pub lookup-All :
      (k : ℕ) (v : V) (m : Dict V) → All (λ entry. P entry.1) m → lookup k m ≡ some v → P v
  unfolding lookup
  lookup-All k v [] h e = absurd (cc)
  lookup-All k v ((j, w) ∷ m) h e = elim (Bool-cases (j == k)) [
    | inl same ↦ subst P (some_inj.0 (rw same at e)) h.0
    | inr other ↦ lookup-All k v m h.1 (rw other at e)
  ]
