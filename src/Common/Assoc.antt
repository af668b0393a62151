-- ===== src/Common/Assoc.antt =====
-- Keys with an equality test, and finite maps as association lists: `std::unordered_map`, where a
-- key stands once and the order of the entries means nothing to a look-up.
use mathlib.Core.Path.{◌≡◌, refl}
use mathlib.Core.Logic.{◌↔◌, inl, inr}
use mathlib.Core.Bool.{Bool, true}
use mathlib.Core.Option.{Option, none, some}
use mathlib.Core.List.{List, [], ◌∷◌}
use native.Mathlib.Omega.{arith}
use collaborative_text_edito.Common.Tests.{◌==◌, ==_iff, if◌then◌else◌, Bool-cases}
use collaborative_text_edito.Common.Lists.{Bytes, bytes_eq, bytes_eq_iff}
use Prim.Native.Nat.{ℕ}

pub record Key (K : Type 0) : Type 0 where
  pub same : K → K → Bool
  pub same_iff : (a b : K) → (same a b ≡ true) ↔ (a ≡ b)

instance abbrev pub nat_key : Key ℕ
nat_key = record { same = λ a b. a == b; same_iff = ==_iff }

instance abbrev pub bytes_key : Key Bytes
bytes_key = record { same = bytes_eq; same_iff = bytes_eq_iff }

module _ {K : Type 0} ⦃e : Key K⦄ where
  same_trans : (a b c : K) → e.same a b ≡ true → e.same a c ≡ e.same b c
  same_trans a b c h = rw ((e.same_iff a b).0 h)

  same_sym : (a b : K) → e.same a b ≡ e.same b a
  same_sym a b = elim (Bool-cases (e.same a b)) [
    | inl h ↦ rw ((e.same_iff a b).0 h)
    | inr h ↦ elim (Bool-cases (e.same b a)) [
      | inl k ↦ rw ((e.same_iff b a).0 k)
      | inr k ↦ rw (h, k)
    ]
  ]

module _ {K V : Type 0} ⦃e : Key K⦄ where
  unfoldable pub lookup : K → List (K × V) → Option V
  lookup k [] = none
  lookup k ((j, v) ∷ m) = if e.same j k then some v else lookup k m

  -- `m[k] = v`
  unfoldable pub insert : K → V → List (K × V) → List (K × V)
  insert k v [] = (k, v) ∷ []
  insert k v ((j, w) ∷ m) = if e.same j k then (k, v) ∷ m else (j, w) ∷ insert k v m

  unfoldable pub erase : K → List (K × V) → List (K × V)
  erase k [] = []
  erase k ((j, v) ∷ m) = if e.same j k then erase k m else (j, v) ∷ erase k m

  pub lookup-insert :
      (k j : K) (v : V) (m : List (K × V))
      → lookup j (insert k v m) ≡ (if e.same k j then some v else lookup j m)
  unfolding lookup insert
  lookup-insert k j v [] = refl
  lookup-insert k j v ((i, w) ∷ m) =
      ground (arith, lookup-insert k j v m, same_trans i k j, same_trans i j k, same_sym j k)

  pub lookup-erase :
      (k j : K) (m : List (K × V))
      → lookup j (erase k m) ≡ (if e.same k j then none else lookup j m)
  unfolding lookup erase
  lookup-erase k j [] = ground arith
  lookup-erase k j ((i, w) ∷ m) =
      ground (arith, lookup-erase k j m, same_trans i k j, same_trans i j k, same_sym j k)
