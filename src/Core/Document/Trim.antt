-- ===== src/Core/Document/Trim.antt =====
-- The loops of `apply_with_ot` (core/src/document.cpp), against plain list functions.
use collaborative_text_edito.Common.{
  ℕ, zero, suc, ◌+◌, ◌-◌, ◌^◌, ◌≤◌, ◌<◌, ◌≡◌, refl, sym, ap, ◌∙◌, arith, List, [], ◌∷◌, some,
  length, drop, foldl, get_elem?, drop_all, add32,
}
use collaborative_text_edito.Core.Operation.{Operation}
use collaborative_text_edito.Core.Ot.{transform}
use collaborative_text_edito.Core.Document.{against, transform_from, trim}

sub-suc : (n m : ℕ) → m < suc n → suc n - m ≡ suc (n - m)
sub-suc n m h = omega arith

pub sub-zero : (n m : ℕ) → n ≤ m → n - m ≡ 0
sub-zero n m h = omega arith

-- Drops the oldest entries until the limit is met.
pub trim-drop :
    (limit : ℕ) (ops : List Operation) (oldest : ℕ)
    → oldest + length ops < 2 ^ 32
    → (trim limit ops oldest).0 ≡ drop (length ops - limit) ops
unfolding trim
trim-drop limit [] oldest h = ground arith
trim-drop limit (op ∷ ops) oldest h =
    let all : List Operation = op ∷ ops in
    ground (
      arith,
      trim-drop limit ops (add32 oldest 1),
      λ (k : limit < suc (length ops)). ap (λ (n : ℕ). drop n all) (sub-suc (length ops) limit k),
      λ (k : suc (length ops) ≤ limit).
          ap (λ (n : ℕ). drop n all) (sub-zero (suc (length ops)) limit k),
    )

pub trim-oldest :
    (limit : ℕ) (ops : List Operation) (oldest : ℕ)
    → oldest + length ops < 2 ^ 32
    → (trim limit ops oldest).1 ≡ oldest + (length ops - limit)
unfolding trim
trim-oldest limit [] oldest h = ground arith
trim-oldest limit (op ∷ ops) oldest h = ground (arith, trim-oldest limit ops (oldest + 1))

-- One entry of the history, as the head of what is left of it.
drop_cons {ℓ} :
    {A : Type ℓ} (xs : List A) (n : ℕ) {x : A}
    → get_elem? xs n ≡ some x
    → drop n xs ≡ x ∷ drop (suc n) xs
drop_cons [] n h = cc
drop_cons (y ∷ ys) zero h = cc
drop_cons (y ∷ ys) (suc n) h = drop_cons ys n h

get_elem?_within {ℓ} :
    {A : Type ℓ} (xs : List A) (n : ℕ) → n < length xs → (x : A) × (get_elem? xs n ≡ some x)
get_elem?_within [] n h = absurd (omega arith)
get_elem?_within (y ∷ ys) zero h = (y, refl)
get_elem?_within (y ∷ ys) (suc n) h = get_elem?_within ys n (omega arith)

abbrev pub against_one : Operation → Operation → Operation
against_one op past = (transform op past).0

-- The loop transforms against every entry from the revision `i` on, in order.
pub transform_from-foldl :
    (rounds : ℕ) (history : List Operation) (oldest i : ℕ) (op : Operation)
    → oldest ≤ i
    → i + rounds ≡ oldest + length history
    → oldest + length history < 2 ^ 32
    → transform_from rounds history oldest i op ≡ foldl against_one op (drop (i - oldest) history)
unfolding transform_from against
transform_from-foldl zero history oldest i op h e k =
    rw (drop_all (i - oldest) history (omega arith))
transform_from-foldl (suc rounds) history oldest i op h e k =
    let (past, found) = get_elem?_within history (i - oldest) (omega arith) in
    let seen : against history oldest i op ≡ (transform op past).0 = ground (arith, found) in
    let step : suc i - oldest ≡ suc (i - oldest) = omega arith in
    transform_from-foldl rounds history oldest (suc i) _ (omega arith) (omega arith) k
    ∙ ap (λ (n : ℕ). foldl against_one (against history oldest i op) (drop n history)) step
    ∙ ap (λ o. foldl against_one o (drop (suc (i - oldest)) history)) seen
    ∙ sym (ap (foldl against_one op) (drop_cons history (i - oldest) found))
