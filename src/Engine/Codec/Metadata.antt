-- ===== src/Engine/Codec/Metadata.antt =====
-- The metadata of a record through `SerializeRecord` and `DeserializeRecord` of
-- src/core/memory_engine.cpp, over a tree library as documented.
use poorguy_mem.Common.{
  ◌≡◌, refl, sym, ap, ◌∙◌, true, false, none, List, [], ◌∷◌, ◌++◌, Text, text_eq, text_lt, All, Map,
  insert_ordered, IsOrdered, IsAbove, arith, append_assoc, append-nil, text_lt_irrefl,
  text_lt_trans, text_eq_iff,
}
use poorguy_mem.Json.Laws.{is_key, ReadsBack}
use poorguy_mem.Engine.State.{Env}
use poorguy_mem.Engine.Codec.{put_metadata, read_metadata}

abbrev insert_all : Map Text → Map Text → Map Text
insert_all acc [] = acc
insert_all acc ((k, v) ∷ m) = insert_all (insert_ordered k v acc) m

-- Every key of the first map is before every key of the second.
abbrev IsBelow : Map Text → Map Text → Type 0
IsBelow acc m = All (λ (e : Text × Text). IsAbove e.0 m) acc

insert_ordered_last :
    (k v : Text) (acc : Map Text)
    → All (λ (e : Text × Text). text_lt e.0 k ≡ true) acc
    → insert_ordered k v acc ≡ acc ++ (k, v) ∷ []
unfolding insert_ordered
insert_ordered_last k v [] a = refl
insert_ordered_last k v ((j, w) ∷ acc) a =
    ground (
      arith,
      text_eq_iff j k,
      text_lt_irrefl k,
      text_lt_trans k j k,
      insert_ordered_last k v acc a.1,
    )

IsBelow-first :
    (k v : Text) (acc m : Map Text)
    → IsBelow acc ((k, v) ∷ m)
    → All (λ (e : Text × Text). text_lt e.0 k ≡ true) acc
IsBelow-first k v [] m b = tt
IsBelow-first k v (e ∷ acc) m b = (b.0.0, IsBelow-first k v acc m b.1)

IsBelow-rest :
    (k v : Text) (acc m : Map Text)
    → IsBelow acc ((k, v) ∷ m)
    → IsAbove k m
    → IsBelow (acc ++ (k, v) ∷ []) m
IsBelow-rest k v [] m b above = (above, tt)
IsBelow-rest k v (e ∷ acc) m b above = (b.0.1, IsBelow-rest k v acc m b.1 above)

insert_all-append : (acc m : Map Text) → IsBelow acc m → IsOrdered m → insert_all acc m ≡ acc ++ m
insert_all-append acc [] b o = sym (append-nil acc)
insert_all-append acc ((k, v) ∷ m) b o =
    ap (λ acc'. insert_all acc' m) (insert_ordered_last k v acc (IsBelow-first k v acc m b))
    ∙ insert_all-append (acc ++ (k, v) ∷ []) m (IsBelow-rest k v acc m b o.0) o.1
    ∙ append_assoc acc ((k, v) ∷ []) m

module _ (env : Env) (back : ReadsBack env.tree) where
  open env use {tree}

  read_metadata-append :
      (acc : Map Text) (xs ys : List (Text × tree.Json))
      → read_metadata env acc (xs ++ ys) ≡ read_metadata env (read_metadata env acc xs) ys
  unfolding read_metadata
  read_metadata-append acc [] ys = refl
  read_metadata-append acc ((k, c) ∷ xs) ys =
      read_metadata-append (insert_ordered k (tree.get_value c) acc) xs ys

  -- What is put under one more key is read last.
  read_metadata-put :
      (json : tree.Json) (k v : Text)
      → is_key k ≡ true
      → tree.get_child_optional json k ≡ none
      → read_metadata env [] (tree.children (tree.put json k v))
        ≡ insert_ordered k v (read_metadata env [] (tree.children json))
  unfolding read_metadata
  read_metadata-put json k v kk absent =
      ap (read_metadata env []) (back.put_children json k v kk absent)
      ∙ read_metadata-append [] (tree.children json) ((k, tree.put tree.empty [] v) ∷ [])
      ∙ ap (λ t. insert_ordered k t (read_metadata env [] (tree.children json))) (back.value_back v)

  -- No key of the map stands in the tree.
  abbrev Absent : tree.Json → Map Text → Type 0
  Absent json m = All (λ (e : Text × Text). tree.get_child_optional json e.0 ≡ none) m

  abbrev Keys : Map Text → Type 0
  Keys m = All (λ (e : Text × Text). is_key e.0 ≡ true) m

  Absent-put :
      (json : tree.Json) (k v : Text) (m : Map Text)
      → is_key k ≡ true
      → IsAbove k m
      → Keys m
      → Absent json m
      → Absent (tree.put json k v) m
  Absent-put json k v [] kk above keys absent = tt
  Absent-put json k v ((j, w) ∷ m) kk above keys absent = (
    back.put_other_child json k j v kk keys.0 other ∙ absent.0,
    Absent-put json k v m kk above.1 keys.1 absent.1,
  )
    where
      other : text_eq k j ≡ false
      other = ground (arith, text_eq_iff k j, text_lt_irrefl k, above.0)

  read_metadata-put_metadata :
      (json : tree.Json) (m : Map Text)
      → Keys m
      → IsOrdered m
      → Absent json m
      → read_metadata env [] (tree.children (put_metadata env json m))
        ≡ insert_all (read_metadata env [] (tree.children json)) m
  unfolding put_metadata
  read_metadata-put_metadata json [] keys o absent = refl
  read_metadata-put_metadata json ((k, v) ∷ m) keys o absent =
      read_metadata-put_metadata (tree.put json k v) m keys.1 o.1
        (Absent-put json k v m keys.0 o.0 keys.1 absent.1)
      ∙ ap (λ acc. insert_all acc m) (read_metadata-put json k v keys.0 absent.0)

  Absent-empty : (m : Map Text) → Keys m → Absent tree.empty m
  Absent-empty [] keys = tt
  Absent-empty ((k, v) ∷ m) keys = (back.laws.no_child k keys.0, Absent-empty m keys.1)

  pub metadata_back :
      (m : Map Text)
      → All (λ (e : Text × Text). is_key e.0 ≡ true) m
      → IsOrdered m
      → read_metadata env [] (tree.children (put_metadata env tree.empty m)) ≡ m
  unfolding read_metadata
  metadata_back m keys o =
      read_metadata-put_metadata tree.empty m keys o (Absent-empty m keys)
      ∙ ap (λ cs. insert_all (read_metadata env [] cs) m) back.no_children
      ∙ insert_all-append [] m tt o
