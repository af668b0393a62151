-- ===== src/Protocol/JsonLibrary.antt =====
-- nlohmann::json, as far as protocol/src/protocol.cpp, server/src/message_handler.cpp and the client
-- use it: a value, how one is made and read, and its text. What throws returns the text of the
-- exception (`what()`) on the left. The values are those without fractions.
pub mod Members
use collaborative_text_edito.Common.{
  ℕ, ◌^◌, ◌<◌, ◌≡◌, ◌≢◌, ◌⊎◌, inl, inr, Bool, true, false, Option, none, some, List, [], ◌∷◌, Bytes,
  bytes, if◌then◌else◌,
}
use collaborative_text_edito.Common.Assoc.{bytes_key, lookup, insert}

-- What returns or throws.
abbrev pub Result : Type 0 → Type 0
Result A = Bytes ⊎ A

infixl 5 ◌>>=◌
abbrev pub ◌>>=◌ : {A B : Type 0} → Result A → (A → Result B) → Result B
inl what >>= f = inl what
inr a >>= f = f a

-- `at`, `contains`, `get`, `is_null` and the like are the members of these names; `object` is the
-- constructor from an initialiser list of pairs, and `assign` is `j[key] = v`.
pub record JsonLibrary : Type 1 where
  pub Value : Type 0
  pub null : Value
  pub boolean : Bool → Value
  pub number : ℕ → Value
  pub string : Bytes → Value
  pub array : List Value → Value
  pub object : List (Bytes × Value) → Value
  pub assign : Value → Bytes → Value → Value
  pub at : Value → Bytes → Result Value
  pub contains : Value → Bytes → Bool
  pub is_null : Value → Bool
  pub is_string : Value → Bool
  pub get_bool : Value → Result Bool
  pub get_u32 : Value → Result ℕ
  pub get_int : Value → Result ℕ
  pub get_string : Value → Result Bytes
  pub get_array : Value → Result (List Value)
  pub parse : Bytes → Result Value
  pub dump : Value → Result Bytes

abbrev pub is_some : {A : Type 0} → Option A → Bool
is_some none = false
is_some (some a) = true

-- What the documentation of the library says of these members, for values that the program makes.
-- `dump` throws on a string that is not UTF-8, and what it writes is parsed to the same value.
pub record IsLawful (J : JsonLibrary) : Type 0 where
  pub at-object :
      (fields : List (Bytes × J.Value)) (key : Bytes) (v : J.Value)
      → lookup key fields ≡ some v
      → J.at (J.object fields) key ≡ inr v
  pub contains-object :
      (fields : List (Bytes × J.Value)) (key : Bytes)
      → J.contains (J.object fields) key ≡ is_some (lookup key fields)
  pub assign-object :
      (fields : List (Bytes × J.Value)) (key : Bytes) (v : J.Value)
      → J.assign (J.object fields) key v ≡ J.object (insert key v fields)
  pub is_null-null : J.is_null J.null ≡ true
  pub is_null-number : (n : ℕ) → J.is_null (J.number n) ≡ false
  pub is_string-string : (s : Bytes) → J.is_string (J.string s) ≡ true
  pub get_bool-boolean : (b : Bool) → J.get_bool (J.boolean b) ≡ inr b
  pub get_u32-number : (n : ℕ) → n < 2 ^ 32 → J.get_u32 (J.number n) ≡ inr n
  pub get_int-number : (n : ℕ) → n < 2 ^ 31 → J.get_int (J.number n) ≡ inr n
  pub get_string-string : (s : Bytes) → J.get_string (J.string s) ≡ inr s
  pub get_array-array : (vs : List J.Value) → J.get_array (J.array vs) ≡ inr vs
  pub parse-dump : (v : J.Value) (text : Bytes) → J.dump v ≡ inr text → J.parse text ≡ inr v

-- How the overloads of `from_json` and `to_json` read and write one member.
module _ (J : JsonLibrary) where
  open J use {Value, at, contains}

  -- `j.at(key).get_to(m.member)`
  abbrev pub read_u32 : Value → Bytes → Result ℕ
  read_u32 j key = at j key >>= J.get_u32

  abbrev pub read_int : Value → Bytes → Result ℕ
  read_int j key = at j key >>= J.get_int

  abbrev pub read_bool : Value → Bytes → Result Bool
  read_bool j key = at j key >>= J.get_bool

  abbrev pub read_string : Value → Bytes → Result Bytes
  read_string j key = at j key >>= J.get_string

  unfoldable pub read_all : {A : Type 0} → (Value → Result A) → List Value → Result (List A)
  read_all read [] = inr []
  read_all read (v ∷ vs) = do a ← read v; rest ← read_all read vs; inr (a ∷ rest)

  abbrev pub read_list : {A : Type 0} → (Value → Result A) → Value → Bytes → Result (List A)
  read_list read j key = do v ← at j key; vs ← J.get_array v; read_all read vs

  abbrev pub not_null : Value → Result (Option ℕ)
  not_null v = if J.is_null v then inr none else J.get_u32 v >>= λ n. inr (some n)

  -- `if (j.contains(key) && !j[key].is_null()) m.member = j[key].get<uint32_t>();`
  unfoldable pub read_optional : Value → Bytes → Result (Option ℕ)
  read_optional j key = if contains j key then at j key >>= not_null else inr none

  -- `j[key] = m.member ? nlohmann::json(*m.member) : nlohmann::json(nullptr)`
  abbrev pub optional : Option ℕ → Value
  optional none = J.null
  optional (some n) = J.number n

  -- `serialize`: `nlohmann::json j = msg; return j.dump();`
  abbrev pub serialize : {A : Type 0} → (A → Value) → A → Result Bytes
  serialize to_json msg = J.dump (to_json msg)

  abbrev pub succeeded : {A : Type 0} → Result A → Option A
  succeeded (inl what) = none
  succeeded (inr a) = some a

  abbrev string_of : Result Value → Option Bytes
  string_of (inl what) = none
  string_of (inr v) = if J.is_string v then succeeded (J.get_string v) else none

  -- `j["type"]`, where it is there and a string.
  unfoldable pub type_name : Value → Option Bytes
  type_name j = if contains j (bytes "type") then string_of (at j (bytes "type")) else none
