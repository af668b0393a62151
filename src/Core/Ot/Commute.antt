-- ===== src/Core/Ot/Commute.antt =====
-- Insertions and erasures at moved positions commute, on documents as lists (core/src/ot.cpp).
use collaborative_text_edito.Common.{
  ℕ, ◌+◌, ◌-◌, ◌≤◌, ◌<◌, ◌≡◌, ◌∙◌, sym, arith, Option, Bytes, ltb, if◌then◌else◌, get_elem?, length,
  min, max, list_ext,
}
use collaborative_text_edito.Core.Ot.{insert_at, erase_at}
use collaborative_text_edito.Core.Ot.Positions.{
  get_elem?-insert_at, get_elem?-erase_at, length-insert_at, length-erase_at,
}

module _ (d : Bytes) where
  -- The document with `s` inserted at `p` and, behind it, `t` inserted at `q`.
  abbrev both : ℕ → ℕ → Bytes → Bytes → ℕ → Option ℕ
  both p q s t i =
      if ltb i p
      then get_elem? d i
      else if ltb i (p + length s)
      then get_elem? s (i - p)
      else if ltb i (q + length s)
      then get_elem? d (i - length s)
      else if ltb i (q + length s + length t)
      then get_elem? t (i - (q + length s))
      else get_elem? d (i - (length s + length t))

  both-first :
      (p q : ℕ) (s t : Bytes) (i : ℕ)
      → p ≤ q
      → q ≤ length d
      → get_elem? (insert_at (insert_at d p s) (q + length s) t) i ≡ both p q s t i
  both-first p q s t i h k = ground (
    arith,
    get_elem?-insert_at (insert_at d p s) (q + length s) t i
        (omega (arith, length-insert_at d p s)),
    get_elem?-insert_at d p s i (omega arith),
    get_elem?-insert_at d p s (i - length t) (omega arith),
  )

  both-second :
      (p q : ℕ) (s t : Bytes) (i : ℕ)
      → p ≤ q
      → q ≤ length d
      → get_elem? (insert_at (insert_at d q t) p s) i ≡ both p q s t i
  both-second p q s t i h k = ground (
    arith,
    get_elem?-insert_at (insert_at d q t) p s i (omega (arith, length-insert_at d q t)),
    get_elem?-insert_at d q t i k,
    get_elem?-insert_at d q t (i - length s) k,
  )

  pub insert_at-insert_at :
      (p q : ℕ) (s t : Bytes)
      → p ≤ q
      → q ≤ length d
      → insert_at (insert_at d p s) (q + length s) t ≡ insert_at (insert_at d q t) p s
  insert_at-insert_at p q s t h k =
      list_ext _ _ λ i. both-first p q s t i h k ∙ sym (both-second p q s t i h k)

  pub erase_at-insert_before :
      (p : ℕ) (s : Bytes) (q n : ℕ)
      → p ≤ q
      → p ≤ length d
      → erase_at (insert_at d p s) (q + length s) n ≡ insert_at (erase_at d q n) p s
  erase_at-insert_before p s q n h k = list_ext _ _ λ i. ground (
    arith,
    get_elem?-erase_at (insert_at d p s) (q + length s) n i,
    get_elem?-insert_at d p s i,
    get_elem?-insert_at d p s (i + n),
    get_elem?-insert_at (erase_at d q n) p s i,
    get_elem?-erase_at d q n i,
    get_elem?-erase_at d q n (i - length s),
    length-erase_at d q n,
  )

  pub erase_at-insert_after :
      (p : ℕ) (s : Bytes) (q n : ℕ)
      → q + n ≤ p
      → p ≤ length d
      → erase_at (insert_at d p s) q n ≡ insert_at (erase_at d q n) (p - n) s
  erase_at-insert_after p s q n h k = list_ext _ _ λ i. ground (
    arith,
    get_elem?-erase_at (insert_at d p s) q n i,
    get_elem?-insert_at d p s i,
    get_elem?-insert_at d p s (i + n),
    get_elem?-insert_at (erase_at d q n) (p - n) s i,
    get_elem?-erase_at d q n i,
    get_elem?-erase_at d q n (i - length s),
    length-erase_at d q n,
  )

  pub erase_at-insert_inside :
      (p : ℕ) (s : Bytes) (q n : ℕ)
      → q < p
      → p < q + n
      → p ≤ length d
      → erase_at (insert_at d p s) q (n + length s) ≡ erase_at d q n
  erase_at-insert_inside p s q n h h' k = list_ext _ _ λ i. ground (
    arith,
    get_elem?-erase_at (insert_at d p s) q (n + length s) i,
    get_elem?-insert_at d p s i,
    get_elem?-insert_at d p s (i + (n + length s)),
    get_elem?-erase_at d q n i,
  )

  pub erase_at-erase_disjoint :
      (p n q m : ℕ)
      → p + n ≤ q
      → erase_at (erase_at d p n) (q - n) m ≡ erase_at (erase_at d q m) p n
  erase_at-erase_disjoint p n q m h = list_ext _ _ λ i. ground (
    arith,
    get_elem?-erase_at (erase_at d p n) (q - n) m i,
    get_elem?-erase_at d p n i,
    get_elem?-erase_at d p n (i + m),
    get_elem?-erase_at (erase_at d q m) p n i,
    get_elem?-erase_at d q m i,
    get_elem?-erase_at d q m (i + n),
  )

  -- The part that two erasures share is erased once.
  pub erase_at-erase_overlap :
      (p n q m s o : ℕ)
      → min (p + n) (q + m) ≡ max p q + s
      → min p q ≡ o
      → erase_at (erase_at d p n) o (m - s) ≡ erase_at (erase_at d q m) o (n - s)
  erase_at-erase_overlap p n q m s o h k = list_ext _ _ λ i. ground (
    arith,
    get_elem?-erase_at (erase_at d p n) o (m - s) i,
    get_elem?-erase_at d p n i,
    get_elem?-erase_at d p n (i + (m - s)),
    get_elem?-erase_at (erase_at d q m) o (n - s) i,
    get_elem?-erase_at d q m i,
    get_elem?-erase_at d q m (i + (n - s)),
  )
