-- ===== src/Core/Ot/Positions.antt =====
-- What stands at each index of a document after an insertion or an erasure (core/src/ot.cpp).
use collaborative_text_edito.Common.{
  ℕ, ◌+◌, ◌-◌, ◌≤◌, ◌≡◌, arith, Bytes, ◌++◌, ltb, if◌then◌else◌, length, take, drop, min, get_elem?,
  get_elem?-append, get_elem?-take, get_elem?-drop, get_elem?_beyond, length-append, length-take,
  length-drop, list_ext,
}
use collaborative_text_edito.Core.Ot.{insert_at, erase_at}

module _ (d : Bytes) where
  pub get_elem?-insert_at :
      (p : ℕ) (t : Bytes) (i : ℕ)
      → p ≤ length d
      → get_elem? (insert_at d p t) i ≡ (
          if ltb i p
          then get_elem? d i
          else if ltb i (p + length t)
          then get_elem? t (i - p)
          else get_elem? d (i - length t))
  unfolding insert_at
  get_elem?-insert_at p t i h = ground (
    arith,
    get_elem?-append (take p d) (t ++ drop p d) i,
    get_elem?-append t (drop p d) (i - p),
    get_elem?-take p d i,
    get_elem?-drop p d (i - p - length t),
    length-take p d,
  )

  pub get_elem?-erase_at :
      (p n i : ℕ)
      → get_elem? (erase_at d p n) i ≡ (if ltb i p then get_elem? d i else get_elem? d (i + n))
  unfolding erase_at
  get_elem?-erase_at p n i = ground (
    arith,
    get_elem?-append (take p d) (drop (p + n) d) i,
    get_elem?-take p d i,
    get_elem?-drop (p + n) d (i - length (take p d)),
    get_elem?_beyond d i,
    get_elem?_beyond d (i + n),
    get_elem?_beyond d (p + n + (i - length (take p d))),
    length-take p d,
  )

  pub length-insert_at : (p : ℕ) (t : Bytes) → length (insert_at d p t) ≡ length d + length t
  unfolding insert_at
  length-insert_at p t = omega (
    arith,
    length-append (take p d) (t ++ drop p d),
    length-append t (drop p d),
    length-take p d,
    length-drop p d,
  )

  pub length-erase_at :
      (p n : ℕ) → length (erase_at d p n) ≡ min p (length d) + (length d - (p + n))
  unfolding erase_at
  length-erase_at p n =
      omega
        (arith, length-append (take p d) (drop (p + n) d), length-take p d, length-drop (p + n) d)

  -- An erasure past the end of the document is cut off there, so it may be stated unclamped.
  pub erase_at_clamped :
      (p n : ℕ)
      → erase_at d (min p (length d)) (min n (length d - min p (length d))) ≡ erase_at d p n
  erase_at_clamped p n = list_ext _ _ λ i. ground (
    arith,
    get_elem?-erase_at (min p (length d)) (min n (length d - min p (length d))) i,
    get_elem?-erase_at p n i,
    get_elem?_beyond d i,
    get_elem?_beyond d (i + n),
    get_elem?_beyond d (i + min n (length d - min p (length d))),
  )
