-- ===== src/Json/Laws.antt =====
-- What the users of src/util/json.cpp rely on of Boost's property trees, for paths of one name.
use poorguy_mem.Common.{
  ℕ, ◌<◌, ◌≡◌, Bool, true, false, ◌&&◌, not, none, some, [], ◌∷◌, ◌++◌, List, sym, ◌∙◌, refl, Text,
  text_eq, ◌==◌, word, append-nil, append_assoc,
}
use poorguy_mem.Json.{Ptree, child_values, make_array_from, make_array, read_string_array}

abbrev pub no_dot : Text → Bool
no_dot [] = true
no_dot (c ∷ s) = not (c == b'.') && no_dot s

-- A path of one name.
abbrev pub is_key : Text → Bool
is_key [] = false
is_key (c ∷ s) = no_dot (c ∷ s)

-- What Boost documents of its trees, for paths of one name.
pub record IsTree (tree : Ptree) : Type 0 where
  pub no_child : (k : Text) → is_key k ≡ true → tree.get_child_optional tree.empty k ≡ none
  pub added_child :
      (json : tree.Json) (k : Text) (child : tree.Json)
      → is_key k ≡ true
      → tree.get_child_optional json k ≡ none
      → tree.get_child_optional (tree.add_child json k child) k ≡ some child
  pub other_child :
      (json : tree.Json) (k j : Text) (child : tree.Json)
      → is_key k ≡ true
      → is_key j ≡ true
      → text_eq k j ≡ false
      → tree.get_child_optional (tree.add_child json k child) j ≡ tree.get_child_optional json j
  pub put_get :
      (json : tree.Json) (k v : Text) → is_key k ≡ true → tree.get (tree.put json k v) k ≡ some v
  pub put_get_other :
      (json : tree.Json) (k j v : Text)
      → is_key k ≡ true
      → is_key j ≡ true
      → text_eq k j ≡ false
      → tree.get (tree.put json k v) j ≡ tree.get json j

-- What Boost documents of the other reads and of its translators.
pub record ReadsBack (tree : Ptree) : Type 0 where
  pub laws : IsTree tree
  pub get_other_child :
      (json : tree.Json) (k j : Text) (child : tree.Json)
      → is_key k ≡ true
      → is_key j ≡ true
      → text_eq k j ≡ false
      → tree.get (tree.add_child json k child) j ≡ tree.get json j
  pub uint64_back : (n : ℕ) → n < word → tree.parse_uint64 (tree.print_uint64 n) ≡ some n
  pub bool_back : (b : Bool) → tree.parse_bool (tree.print_bool b) ≡ some b
  pub put_other_child :
      (json : tree.Json) (k j v : Text)
      → is_key k ≡ true
      → is_key j ≡ true
      → text_eq k j ≡ false
      → tree.get_child_optional (tree.put json k v) j ≡ tree.get_child_optional json j
  pub no_children : tree.children tree.empty ≡ []
  pub pushed_children :
      (json : tree.Json) (k : Text) (child : tree.Json)
      → tree.children (tree.push_back json k child) ≡ tree.children json ++ (k, child) ∷ []
  pub put_children :
      (json : tree.Json) (k v : Text)
      → is_key k ≡ true
      → tree.get_child_optional json k ≡ none
      → tree.children (tree.put json k v) ≡ tree.children json ++ (k, tree.put tree.empty [] v) ∷ []
  pub value_back : (v : Text) → tree.get_value (tree.put tree.empty [] v) ≡ v

module _ (tree : Ptree) (back : ReadsBack tree) where
  child_values-append :
      (xs ys : List (Text × tree.Json))
      → child_values tree (xs ++ ys) ≡ child_values tree xs ++ child_values tree ys
  unfolding child_values
  child_values-append [] ys = refl
  child_values-append ((k, c) ∷ xs) ys = rw (child_values, child_values-append xs ys) refl

  values-make_array_from :
      (arr : tree.Json) (vs : List Text)
      → child_values tree (tree.children (make_array_from tree arr vs))
        ≡ child_values tree (tree.children arr) ++ vs
  unfolding make_array_from child_values
  values-make_array_from arr [] = sym (append-nil (child_values tree (tree.children arr)))
  values-make_array_from arr (v ∷ vs) =
      let item = tree.put tree.empty [] v in
      let rest = values-make_array_from (tree.push_back arr [] item) vs in
      rest
      ∙ rw
          (
            back.pushed_children arr [] item,
            child_values-append (tree.children arr) (([], item) ∷ []),
            child_values,
            back.value_back v,
            append_assoc (child_values tree (tree.children arr)) (v ∷ []) vs,
          )
          refl

  pub read_string_array-make_array :
      (json : tree.Json) (path : Text) (vs : List Text)
      → tree.get_child_optional json path ≡ some (make_array tree vs)
      → read_string_array tree json path ≡ vs
  unfolding read_string_array make_array child_values
  read_string_array-make_array json path vs h =
      rw (read_string_array, h, values-make_array_from tree.empty vs, back.no_children) refl
