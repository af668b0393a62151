-- ===== src/Protocol/JsonLibrary/Members.antt =====
-- What the members of an object are read as.
use collaborative_text_edito.Common.{
  ℕ, ◌^◌, ◌<◌, ◌≡◌, refl, ap, ◌∙◌, inr, Bool, Option, none, some, List, [], ◌∷◌, map, Bytes, bytes,
}
use collaborative_text_edito.Common.Assoc.{bytes_key, lookup, insert}
use collaborative_text_edito.Protocol.JsonLibrary.{
  Result, ◌>>=◌, JsonLibrary, IsLawful, read_u32, read_int, read_bool, read_string, read_all,
  read_list, not_null, read_optional, optional, type_name,
}

-- The entries of a list, all of which fit.
abbrev pub All : {A : Type 0} → (A → Type 0) → List A → Type 0
All P [] = Unit {0}
All P (x ∷ xs) = P x × All P xs

abbrev pub OptionFits : Option ℕ → Type 0
OptionFits none = Unit {0}
OptionFits (some n) = n < 2 ^ 32

-- A step that succeeds, and the rest.
pub step :
    {A B : Type 0} {r : Result A} {s : Result B} (a : A) (f : A → Result B)
    → r ≡ inr a
    → f a ≡ s
    → (r >>= f) ≡ s
step a f e k = rw e k

-- Equal values are read in the same way.
pub read_equal :
    {V A : Type 0} (read : V → Result A) {j k : V} {r : Result A} → j ≡ k → read k ≡ r → read j ≡ r
read_equal read e h = ap read e ∙ h

module _ {J : JsonLibrary} (L : IsLawful J) where
  open J use {Value, boolean, number, string, array, object}

  pub assign_twice :
      (fields : List (Bytes × Value)) (k l : Bytes) (v w : Value)
      → J.assign (J.assign (object fields) k v) l w ≡ object (insert l w (insert k v fields))
  assign_twice fields k l v w =
      ap (λ j. J.assign j l w) (L.assign-object fields k v) ∙ L.assign-object _ l w

  pub type_member :
      (fields : List (Bytes × Value)) (name : Bytes)
      → lookup (bytes "type") fields ≡ some (string name)
      → type_name J (object fields) ≡ some name
  unfolding type_name
  type_member fields name e = rw (L.contains-object fields _) (
      rw e (
        rw (L.at-object fields _ _ e)
          (rw (L.is_string-string name) (rw (L.get_string-string name) refl))))

  module _ (fields : List (Bytes × Value)) (key : Bytes) where
    pub string_member :
        (s : Bytes)
        → lookup key fields ≡ some (string s)
        → read_string J (object fields) key ≡ inr s
    string_member s e = rw (L.at-object fields key _ e) (L.get_string-string s)

    pub bool_member :
        (b : Bool) → lookup key fields ≡ some (boolean b) → read_bool J (object fields) key ≡ inr b
    bool_member b e = rw (L.at-object fields key _ e) (L.get_bool-boolean b)

    pub u32_member :
        (n : ℕ)
        → n < 2 ^ 32
        → lookup key fields ≡ some (number n)
        → read_u32 J (object fields) key ≡ inr n
    u32_member n h e = rw (L.at-object fields key _ e) (L.get_u32-number n h)

    pub int_member :
        (n : ℕ)
        → n < 2 ^ 31
        → lookup key fields ≡ some (number n)
        → read_int J (object fields) key ≡ inr n
    int_member n h e = rw (L.at-object fields key _ e) (L.get_int-number n h)

    not_null-optional : (o : Option ℕ) → OptionFits o → not_null J (optional J o) ≡ inr o
    not_null-optional none h = rw L.is_null-null refl
    not_null-optional (some n) h = rw (L.is_null-number n) (rw (L.get_u32-number n h) refl)

    pub optional_member :
        (o : Option ℕ)
        → OptionFits o
        → lookup key fields ≡ some (optional J o)
        → read_optional J (object fields) key ≡ inr o
    unfolding read_optional
    optional_member o h e =
        rw (L.contains-object fields key)
          (rw e (rw (L.at-object fields key _ e) (not_null-optional o h)))

  module _ {A : Type 0} (read : Value → Result A) (write : A → Value) (Fits : A → Type 0) where
    read_all-map :
        ((a : A) → Fits a → read (write a) ≡ inr a)
        → (items : List A) → All Fits items
        → read_all J read (map write items) ≡ inr items
    unfolding read_all
    read_all-map back [] h = refl
    read_all-map back (a ∷ rest) h = rw (back a h.0) (rw (read_all-map back rest h.1) refl)

    pub list_member :
        ((a : A) → Fits a → read (write a) ≡ inr a)
        → (fields : List (Bytes × Value)) (key : Bytes) (items : List A) → All Fits items
        → lookup key fields ≡ some (array (map write items))
        → read_list J read (object fields) key ≡ inr items
    list_member back fields key items h e =
        rw (L.at-object fields key _ e) (rw (L.get_array-array _) (read_all-map back items h))
