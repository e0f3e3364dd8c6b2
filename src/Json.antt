-- ===== src/Json.antt =====
-- src/util/json.cpp over Boost's property trees. The trees, their JSON reader and writer and the
-- translators of numbers and Booleans are third-party code: a record of operations.
pub mod Laws
use poorguy_mem.Common.{
  ℕ, ◌+◌, ◌-◌, ◌^◌, Bool, Option, none, some, List, [], ◌∷◌, Text, Double, ltb, if◌then◌else◌, ◌≡◌,
  refl, ap, ◌∙◌,
}

-- `get` by a path gives `none` where the path is missing or the data does not translate.
pub record Ptree : Type 1 where
  pub Json : Type 0
  pub empty : Json
  -- tree.put(path, text)
  pub put : Json → Text → Text → Json
  pub add_child : Json → Text → Json → Json
  pub push_back : Json → Text → Json → Json
  -- tree.get_optional<std::string>(path)
  pub get : Json → Text → Option Text
  pub get_child_optional : Json → Text → Option Json
  -- the children in order, with their keys
  pub children : Json → List (Text × Json)
  -- tree.get_value<std::string>()
  pub get_value : Json → Text
  -- Whether `write_json` returns: it throws for a tree in which a node has both a text and children,
  -- and its value here stands for nothing then.
  pub can_write : Json → Bool
  pub write_json : Json → Text
  pub read_json : Text → Option Json
  -- what() of the reader's exception
  pub read_error : Text → Text
  pub print_uint64 : ℕ → Text
  pub parse_uint64 : Text → Option ℕ
  -- An `int` stands as its two's complement in 32 bits.
  pub print_int : ℕ → Text
  pub parse_int : Text → Option ℕ
  pub print_bool : Bool → Text
  pub parse_bool : Text → Option Bool
  pub print_double : Double → Text
  pub parse_double : Text → Option Double

-- `-n` as an `int`
abbrev pub negative : ℕ → ℕ
negative n = 2 ^ 32 - n

-- `static_cast<size_t>` of an `int`: the sign is extended.
unfoldable pub size_of_int : ℕ → ℕ
size_of_int n = if ltb n (2 ^ 31) then n else n + (2 ^ 64 - 2 ^ 32)

module _ (tree : Ptree) where
  open tree use {Json}

  unfoldable pub make_array_from : Json → List Text → Json
  make_array_from arr [] = arr
  make_array_from arr (v ∷ values) =
      make_array_from (tree.push_back arr [] (tree.put tree.empty [] v)) values

  unfoldable pub make_array : List Text → Json
  make_array values = make_array_from tree.empty values

  unfoldable pub child_values : List (Text × Json) → List Text
  child_values [] = []
  child_values ((key, child) ∷ rest) = tree.get_value child ∷ child_values rest

  unfoldable pub read_string_array : Json → Text → List Text
  read_string_array json path = elim (tree.get_child_optional json path) [
    | none ↦ []
    | some child ↦ child_values (tree.children child)
  ]

  unfoldable pub get_string_or : Json → Text → Text → Text
  get_string_or json path fallback = elim (tree.get json path) [ none ↦ fallback | some v ↦ v ]

  abbrev translated : {A : Type 0} → (Text → Option A) → Option Text → A → A
  translated parse none fallback = fallback
  translated parse (some v) fallback = elim (parse v) [ none ↦ fallback | some a ↦ a ]

  -- A text that is there and translates.
  pub translated_back :
      {A : Type 0} (parse : Text → Option A) (o : Option Text) (v : Text) (fallback a : A)
      → o ≡ some v
      → parse v ≡ some a
      → translated parse o fallback ≡ a
  translated_back parse none v fallback a e p = cc
  translated_back parse (some w) v fallback a e p =
      let same : w ≡ v = cc e in
      let q : parse w ≡ some a = ap parse same ∙ p in rw (translated, q) refl

  unfoldable pub get_uint64_or : Json → Text → ℕ → ℕ
  get_uint64_or json path fallback = translated tree.parse_uint64 (tree.get json path) fallback

  unfoldable pub get_int_or : Json → Text → ℕ → ℕ
  get_int_or json path fallback = translated tree.parse_int (tree.get json path) fallback

  unfoldable pub get_bool_or : Json → Text → Bool → Bool
  get_bool_or json path fallback = translated tree.parse_bool (tree.get json path) fallback

  -- `GetDoubleOr` of the engine and of the dispatcher
  unfoldable pub get_double_or : Json → Text → Double → Double
  get_double_or json path fallback = translated tree.parse_double (tree.get json path) fallback

  abbrev pub put_uint64 : Json → Text → ℕ → Json
  put_uint64 json path n = tree.put json path (tree.print_uint64 n)

  abbrev pub put_bool : Json → Text → Bool → Json
  put_bool json path b = tree.put json path (tree.print_bool b)

  abbrev pub put_double : Json → Text → Double → Json
  put_double json path x = tree.put json path (tree.print_double x)
