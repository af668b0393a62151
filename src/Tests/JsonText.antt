-- ===== src/Tests/JsonText.antt =====
-- A JSON library that meets what is assumed of one: a value is its text, a kind and then the content,
-- in which each part stands behind its length.
use collaborative_text_edito.Common.{
  ℕ, zero, suc, ◌≤◌, ◌≡◌, refl, sym, ap, ap₂, ◌∙◌, arith, ◌==◌, inl, inr, Bool, true, false, Option,
  none, some, List, [], ◌∷◌, ◌++◌, Bytes, bytes, length, take, drop, take-append, drop-append,
  length-append, if◌then◌else◌,
}
use collaborative_text_edito.Common.Assoc.{bytes_key, lookup, insert}
use collaborative_text_edito.Protocol.JsonLibrary.{JsonLibrary, IsLawful, Result, is_some}

unfoldable pub frames : List Bytes → Bytes
frames [] = []
frames (b ∷ bs) = length b ∷ (b ++ frames bs)

unfoldable pub cut : ℕ → Bytes → List Bytes
cut zero bs = []
cut (suc fuel) [] = []
cut (suc fuel) (n ∷ bs) = take n bs ∷ cut fuel (drop n bs)

cut-frames : (fuel : ℕ) (bs : List Bytes) → length (frames bs) ≤ fuel → cut fuel (frames bs) ≡ bs
unfolding frames cut
cut-frames zero [] h = refl
cut-frames zero (b ∷ bs) h = absurd (omega arith)
cut-frames (suc fuel) [] h = refl
cut-frames (suc fuel) (b ∷ bs) h = ap₂ ◌∷◌ (take-append b (frames bs)) (
    ap (cut fuel) (drop-append b (frames bs))
    ∙ cut-frames fuel bs (omega (arith, length-append b (frames bs))))

unfoldable pub items : Bytes → List Bytes
unfolding cut
items text = cut (length text) text

items-frames : (bs : List Bytes) → items (frames bs) ≡ bs
unfolding items
items-frames bs = cut-frames _ bs (omega arith)

unfoldable pub flat : List (Bytes × Bytes) → List Bytes
flat [] = []
flat ((k, v) ∷ fields) = k ∷ v ∷ flat fields

unfoldable pub pairs : List Bytes → List (Bytes × Bytes)
pairs [] = []
pairs (k ∷ []) = []
pairs (k ∷ v ∷ rest) = (k, v) ∷ pairs rest

pairs-flat : (fields : List (Bytes × Bytes)) → pairs (flat fields) ≡ fields
unfolding pairs flat
pairs-flat [] = refl
pairs-flat ((k, v) ∷ fields) = ap (◌∷◌ (k, v)) (pairs-flat fields)

-- The kinds: null, boolean, number, string, array, object.
unfoldable pub fields_of : Bytes → List (Bytes × Bytes)
unfolding items pairs
fields_of [] = []
fields_of (kind ∷ text) = if kind == 5 then pairs (items text) else []

unfoldable pub object : List (Bytes × Bytes) → Bytes
unfolding frames flat
object fields = 5 ∷ frames (flat fields)

fields_of-object : (fields : List (Bytes × Bytes)) → fields_of (object fields) ≡ fields
unfolding fields_of object
fields_of-object fields = ap pairs (items-frames (flat fields)) ∙ pairs-flat fields

unfoldable pub content : ℕ → Bytes → Result Bytes
content kind [] = inl (bytes "type_error")
content kind (k ∷ text) = if k == kind then inr text else inl (bytes "type_error")

unfoldable pub one : Bytes → Result ℕ
one (n ∷ []) = inr n
one _ = inl (bytes "type_error")

unfoldable pub number_of : Bytes → Result ℕ
unfolding content one
number_of v = elim (content 2 v) [ inl what ↦ inl what | inr text ↦ one text ]

unfoldable pub bool_of : Bytes → Result Bool
unfolding content one
bool_of v = elim (content 1 v) [
  | inl what ↦ inl what
  | inr text ↦ elim (one text) [ inl what ↦ inl what | inr n ↦ inr (n == 1) ]
]

unfoldable pub array_of : Bytes → Result (List Bytes)
unfolding content items
array_of v = elim (content 4 v) [ inl what ↦ inl what | inr text ↦ inr (items text) ]

unfoldable pub found : Option Bytes → Result Bytes
found none = inl (bytes "out_of_range")
found (some v) = inr v

unfoldable pub has_kind : ℕ → Bytes → Bool
has_kind kind [] = false
has_kind kind (k ∷ text) = k == kind

abbrev pub json_text : JsonLibrary
json_text = record {
  Value = Bytes;
  null = 0 ∷ [];
  boolean = λ b. 1 ∷ (if b then 1 else 0) ∷ [];
  number = λ n. 2 ∷ n ∷ [];
  string = λ s. 3 ∷ s;
  array = λ vs. 4 ∷ frames vs;
  object = object;
  assign = λ j k v. object (insert k v (fields_of j));
  at = λ j k. found (lookup k (fields_of j));
  contains = λ j k. is_some (lookup k (fields_of j));
  is_null = has_kind 0;
  is_string = has_kind 3;
  get_bool = bool_of;
  get_u32 = number_of;
  get_int = number_of;
  get_string = content 3;
  get_array = array_of;
  parse = inr;
  dump = inr;
}

bool_back : (b : Bool) → bool_of (json_text.boolean b) ≡ inr b
unfolding bool_of
bool_back true = refl
bool_back false = refl

at_back :
    (fields : List (Bytes × Bytes)) (key v : Bytes)
    → lookup key fields ≡ some v
    → json_text.at (json_text.object fields) key ≡ inr v
unfolding found
at_back fields key v e = rw (fields_of-object fields) (rw e refl)

pub json_text-IsLawful : IsLawful json_text
unfolding has_kind content number_of array_of
json_text-IsLawful = record {
  at-object = at_back;
  contains-object = λ fields key. ap (λ m. is_some (lookup key m)) (fields_of-object fields);
  assign-object = λ fields key v. ap (λ m. object (insert key v m)) (fields_of-object fields);
  is_null-null = refl;
  is_null-number = λ n. refl;
  is_string-string = λ s. refl;
  get_bool-boolean = bool_back;
  get_u32-number = λ n h. refl;
  get_int-number = λ n h. refl;
  get_string-string = λ s. refl;
  get_array-array = λ vs. ap inr (items-frames vs);
  parse-dump = λ v text e. sym e;
}
