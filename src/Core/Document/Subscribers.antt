-- ===== src/Core/Document/Subscribers.antt =====
-- The set of subscribers of a document (core/src/document.cpp).
use collaborative_text_edito.Common.{
  ℕ, ◌+◌, ◌≤◌, ◌<◌, ◌≡◌, refl, arith, Bool, false, ◌||◌, not, ◌&&◌, List, [], ◌∷◌, ◌==◌,
  if◌then◌else◌, length,
}
use collaborative_text_edito.Core.Document.{
  Document, set_insert, set_erase, subscribe, unsubscribe, subscriber_count,
}

pub contains : ℕ → List ℕ → Bool
contains u [] = false
contains u (v ∷ vs) = (u == v) || contains u vs

-- The elements stand in their order, each once.
abbrev pub Above : ℕ → List ℕ → Type 0
Above n [] = Unit {0}
Above n (v ∷ vs) = (n < v) × Above v vs

abbrev pub IsOrdered : List ℕ → Type 0
IsOrdered [] = Unit {0}
IsOrdered (v ∷ vs) = Above v vs

contains-Above : (u n : ℕ) (vs : List ℕ) → Above n vs → u ≤ n → contains u vs ≡ false
unfolding contains
contains-Above u n [] a h = refl
contains-Above u n (v ∷ vs) a h = ground (arith, contains-Above u v vs a.1)

Above-insert : (u n : ℕ) (vs : List ℕ) → Above n vs → n < u → Above n (set_insert u vs)
unfolding set_insert
Above-insert u n [] a h = (h, tt)
Above-insert u n (v ∷ vs) a h = ground (arith, Above-insert u v vs a.1)

Above-mono : (m n : ℕ) (vs : List ℕ) → m ≤ n → Above n vs → Above m vs
Above-mono m n [] h a = tt
Above-mono m n (v ∷ vs) h a = (omega arith, a.1)

Above-erase : (u n : ℕ) (vs : List ℕ) → Above n vs → Above n (set_erase u vs)
unfolding set_erase
Above-erase u n [] a = tt
Above-erase u n (v ∷ vs) a = ground (arith, Above-erase u v vs a.1, Above-mono n v vs)

IsOrdered-insert : (u : ℕ) (vs : List ℕ) → IsOrdered vs → IsOrdered (set_insert u vs)
unfolding set_insert
IsOrdered-insert u [] o = tt
IsOrdered-insert u (v ∷ vs) o = ground (arith, Above-insert u v vs o)

Above-IsOrdered : (n : ℕ) (vs : List ℕ) → Above n vs → IsOrdered vs
Above-IsOrdered n [] a = tt
Above-IsOrdered n (v ∷ vs) a = a.1

IsOrdered-erase : (u : ℕ) (vs : List ℕ) → IsOrdered vs → IsOrdered (set_erase u vs)
unfolding set_erase
IsOrdered-erase u [] o = tt
IsOrdered-erase u (v ∷ vs) o = ground (arith, Above-erase u v vs o, Above-IsOrdered v vs o)

contains-insert :
    (u w : ℕ) (vs : List ℕ) → contains w (set_insert u vs) ≡ ((w == u) || contains w vs)
unfolding contains set_insert
contains-insert u w [] = refl
contains-insert u w (v ∷ vs) = ground (arith, contains-insert u w vs)

contains-erase :
    (u w : ℕ) (vs : List ℕ)
    → IsOrdered vs
    → contains w (set_erase u vs) ≡ (not (w == u) && contains w vs)
unfolding contains set_erase
contains-erase u w [] o = ground arith
contains-erase u w (v ∷ vs) o =
    ground (arith, contains-erase u w vs (Above-IsOrdered v vs o), contains-Above u v vs o)

length-insert :
    (u : ℕ) (vs : List ℕ)
    → IsOrdered vs
    → length (set_insert u vs) ≡ (if contains u vs then length vs else length vs + 1)
unfolding contains set_insert
length-insert u [] o = ground arith
length-insert u (v ∷ vs) o =
    ground (arith, length-insert u vs (Above-IsOrdered v vs o), contains-Above u v vs o)

length-erase :
    (u : ℕ) (vs : List ℕ) → length (set_erase u vs) + (if contains u vs then 1 else 0) ≡ length vs
unfolding contains set_erase
length-erase u [] = ground arith
length-erase u (v ∷ vs) = ground (arith, length-erase u vs)

abbrev pub is_subscriber : Document → ℕ → Bool
is_subscriber d u = contains u d.subscribers

-- `subscribe` adds one user, counted once however often it subscribes, and keeps the others;
-- `unsubscribe` removes it. Both keep the set ordered.
pub subscribe-unsubscribe :
    (d : Document) (u w : ℕ)
    → IsOrdered d.subscribers
    → IsOrdered (subscribe d u).subscribers
      × IsOrdered (unsubscribe d u).subscribers
      × (is_subscriber (subscribe d u) w ≡ ((w == u) || is_subscriber d w))
      × (is_subscriber (unsubscribe d u) w ≡ (not (w == u) && is_subscriber d w))
      × (subscriber_count (subscribe d u)
          ≡ (if is_subscriber d u then subscriber_count d else subscriber_count d + 1))
      × (subscriber_count (unsubscribe d u) + (if is_subscriber d u then 1 else 0)
          ≡ subscriber_count d)
unfolding subscribe unsubscribe
subscribe-unsubscribe d u w o = (
  IsOrdered-insert u d.subscribers o,
  IsOrdered-erase u d.subscribers o,
  contains-insert u w d.subscribers,
  contains-erase u w d.subscribers o,
  length-insert u d.subscribers o,
  length-erase u d.subscribers,
)
