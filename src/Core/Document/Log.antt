-- ===== src/Core/Document/Log.antt =====
-- A document (core/src/document.cpp) against an unbounded log of the operations that were applied.
use collaborative_text_edito.Common.{
  ℕ, zero, suc, ◌+◌, ◌-◌, ◌^◌, ◌≤◌, ◌<◌, ◌≡◌, refl, sym, ap, ◌∙◌, arith, true, Bool-cases, inl, inr,
  leb, leb→le, leb→lt, le→ltb, and-false, List, [], ◌∷◌, ◌++◌, Bytes, length, length-append,
  length-drop, drop, foldl, foldl-append, drop_all,
}
use collaborative_text_edito.Core.Operation.{Operation}
use collaborative_text_edito.Core.Ot.{apply}
use collaborative_text_edito.Core.Document.{Document, init, transform_from, commit, apply_with_ot}
use collaborative_text_edito.Core.Document.Trim.{
  trim-drop, trim-oldest, sub-zero, transform_from-foldl, against_one,
}

-- The document's content is the log replayed over `base`, and its history is the end of the log.
pub record Represents (d : Document) (base : Bytes) (log : List Operation) : Type 0 where
  pub replayed : d.content ≡ foldl apply base log
  pub counted : d.revision ≡ length log
  pub kept : d.oldest_revision + length d.history ≡ length log
  pub suffix : d.history ≡ drop d.oldest_revision log

suc-plus : (n m : ℕ) → suc n + m ≡ suc (n + m)
suc-plus n m = omega arith

cancel : (n m : ℕ) → n ≤ m → n + (m - n) ≡ m
cancel n m h = omega arith

-- What an operation becomes: transformed against all that was applied since its revision.
unfoldable pub rebased : List Operation → Operation → Operation
rebased log op = foldl against_one op (drop op.revision log)

module _ {ℓ} {A : Type ℓ} where
  drop-drop : (n m : ℕ) (xs : List A) → drop n (drop m xs) ≡ drop (m + n) xs
  drop-drop n zero xs = ground arith
  drop-drop zero (suc m) [] = ground arith
  drop-drop (suc n) (suc m) [] = sym (drop_all (suc m + suc n) [] (omega arith))
  drop-drop n (suc m) (x ∷ xs) =
      drop-drop n m xs ∙ sym (ap (λ (k : ℕ). drop k (x ∷ xs)) (suc-plus m n))

  drop-append_le : (n : ℕ) (xs ys : List A) → n ≤ length xs → drop n (xs ++ ys) ≡ drop n xs ++ ys
  drop-append_le zero xs ys h = refl
  drop-append_le (suc n) [] ys h = absurd (omega arith)
  drop-append_le (suc n) (x ∷ xs) ys h = drop-append_le n xs ys (omega arith)

module _ (d : Document) (base : Bytes) (log : List Operation) where
  rebase :
      (op : Operation)
      → Represents d base log
      → d.oldest_revision ≤ op.revision
      → length log < 2 ^ 32
      → transform_from (d.revision - op.revision) d.history d.oldest_revision op.revision op
        ≡ rebased log op
  unfolding rebased transform_from
  rebase op r h k = elim (Bool-cases (leb op.revision d.revision)) [
    | inl old ↦
        let within = leb→le _ _ old in
        transform_from-foldl (d.revision - op.revision) d.history d.oldest_revision op.revision op h
          (omega arith) (omega arith)
        ∙ ap (foldl against_one op) (
            ap (drop (op.revision - d.oldest_revision)) r.suffix
            ∙ drop-drop (op.revision - d.oldest_revision) d.oldest_revision log
            ∙ ap (λ (n : ℕ). drop n log) (cancel d.oldest_revision op.revision h))
    | inr ahead ↦
        let beyond = leb→lt _ _ ahead in
        ap (λ (n : ℕ). transform_from n d.history d.oldest_revision op.revision op)
          (sub-zero d.revision op.revision (omega arith))
        ∙ sym (ap (foldl against_one op) (drop_all op.revision log (omega arith)))
  ]

  commit-Represents :
      (op : Operation)
      → Represents d base log
      → length log + 1 < 2 ^ 32
      → Represents (commit d op).0 base (log ++ op ∷ [])
  unfolding commit
  commit-Represents op r k =
      let longer = length-append d.history (op ∷ []) in
      let dropped =
        trim-drop d.history_limit (d.history ++ op ∷ []) d.oldest_revision
          (omega (arith, longer)) in
      let moved =
        trim-oldest d.history_limit (d.history ++ op ∷ []) d.oldest_revision
          (omega (arith, longer)) in
      record {
        replayed = ap (λ c. apply c op) r.replayed ∙ sym (foldl-append apply base log op);
        counted = omega (arith, length-append log (op ∷ []));
        kept = omega (
          arith,
          longer,
          moved,
          ap length dropped,
          length-append log (op ∷ []),
          length-drop (length (d.history ++ op ∷ []) - d.history_limit) (d.history ++ op ∷ []),
        );
        suffix =
            dropped
            ∙ ap (drop (length (d.history ++ op ∷ []) - d.history_limit)) (
                ap (◌++ op ∷ []) r.suffix
                ∙ sym (drop-append_le d.oldest_revision log (op ∷ []) (omega arith)))
            ∙ drop-drop (length (d.history ++ op ∷ []) - d.history_limit) d.oldest_revision
                (log ++ op ∷ [])
            ∙ ap (λ (n : ℕ). drop n (log ++ op ∷ [])) (sym moved);
      }

-- On a document that stands for a log, an operation whose revision is still in the history is
-- accepted: the reply carries the operation transformed against all that the log holds from its
-- revision on, and the document stands for the log with that operation behind it.
pub apply_with_ot-Represents :
    (d : Document) (base : Bytes) (log : List Operation) (op : Operation)
    → Represents d base log
    → d.oldest_revision ≤ op.revision
    → length log + 1 < 2 ^ 32
    → ((apply_with_ot d op).1.success ≡ true)
      × ((apply_with_ot d op).1.transformed_op ≡ rebased log op)
      × Represents (apply_with_ot d op).0 base (log ++ rebased log op ∷ [])
unfolding apply_with_ot commit
apply_with_ot-Represents d base log op r h k =
    let e = rebase d base log op r h (omega arith) in
    rw (le→ltb op.revision d.oldest_revision h, and-false, e)
      (refl, refl, commit-Represents d base log (rebased log op) r k)

-- A fresh document stands for the empty log.
pub init-Represents : (id : ℕ) (title : Bytes) → Represents (init id title) [] []
unfolding init
init-Represents id title = record { replayed = refl; counted = refl; kept = refl; suffix = refl }
