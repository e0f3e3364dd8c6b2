-- ===== src/Examples/Trees.antt =====
-- The tree of Samples.antt as a tree library, and a record that is read back from its tree.
use poorguy_mem.Common.{
  List, text_lt, ◌≡◌, refl, Bool, true, false, none, some, [], ◌∷◌, ◌++◌, text, Text, text_eq,
  text_eq_refl, text_eq_iff, arith,
}
use poorguy_mem.Types.{MemoryRecord}
use poorguy_mem.Json.Laws.{is_key, IsTree, ReadsBack}
use poorguy_mem.Json.{make_array, make_array_from}
use poorguy_mem.Engine.Codec.{serializes, put_fields, put_metadata, record_to_json, record_of_json}
use poorguy_mem.Engine.Codec.Fields.{IsPrintable, record_of_json-record_to_json}
use poorguy_mem.Samples.{
  sample_record, Node, leaf, with_child, node_child, node_add, node_text, node_set, node_put,
  node_get, node_writes, node_children, node_tree, node_env,
}

node_text-node_set : (n : Node) (t : Text) → node_text (node_set n t) ≡ t
unfolding node_text node_set
node_text-node_set (leaf v) t = refl
node_text-node_set (with_child j c rest) t = node_text-node_set rest t

node_child-node_add :
    (n : Node) (k : Text) (c : Node)
    → node_child n k ≡ none
    → node_child (node_add n k c) k ≡ some c
unfolding node_child node_add
node_child-node_add (leaf v) k c h = rw (text_eq_refl k) refl
node_child-node_add (with_child j d rest) k c h = ground (arith, node_child-node_add rest k c)

node_child-node_add-other :
    (n : Node) (k j : Text) (c : Node)
    → text_eq k j ≡ false
    → node_child (node_add n k c) j ≡ node_child n j
unfolding node_child node_add
node_child-node_add-other (leaf v) k j c h = rw h refl
node_child-node_add-other (with_child i d rest) k j c h =
    ground (arith, node_child-node_add-other rest k j c h)

node_get-node_put : (n : Node) (k t : Text) → node_get (node_put n k t) k ≡ some t
unfolding node_get node_put node_child node_text
node_get-node_put (leaf v) k t = rw (node_get, text_eq_refl k) refl
node_get-node_put (with_child j c rest) k t =
    ground (arith, node_get-node_put rest k t, node_text-node_set c t)

node_get-node_put-other :
    (n : Node) (k j t : Text) → text_eq k j ≡ false → node_get (node_put n k t) j ≡ node_get n j
unfolding node_get node_put node_child node_text
node_get-node_put-other (leaf v) k j t h = rw (node_get, h) refl
node_get-node_put-other (with_child i c rest) k j t h =
    ground (
      arith,
      node_get-node_put-other rest k j t h,
      text_eq_iff i k,
      text_eq_iff k j,
      text_eq_iff i j,
    )

node_child-node_put-other :
    (n : Node) (k j t : Text) → text_eq k j ≡ false → node_child (node_put n k t) j ≡ node_child n j
unfolding node_put node_child
node_child-node_put-other (leaf v) k j t h = rw h refl
node_child-node_put-other (with_child i c rest) k j t h = ground (
  arith,
  node_child-node_put-other rest k j t h,
  text_eq_iff i k,
  text_eq_iff k j,
  text_eq_iff i j,
)

node_children-node_add :
    (n : Node) (k : Text) (c : Node)
    → node_children (node_add n k c) ≡ node_children n ++ (k, c) ∷ []
unfolding node_children node_add
node_children-node_add (leaf v) k c = refl
node_children-node_add (with_child j d rest) k c =
    rw (node_children, node_children-node_add rest k c) refl

node_children-node_put :
    (n : Node) (k t : Text)
    → node_child n k ≡ none
    → node_children (node_put n k t) ≡ node_children n ++ (k, node_set (leaf []) t) ∷ []
unfolding node_children node_put node_child node_set
node_children-node_put (leaf v) k t h = refl
node_children-node_put (with_child j d rest) k t h = ground (arith, node_children-node_put rest k t)

pub node_tree-IsTree : IsTree node_tree
unfolding node_child
node_tree-IsTree = record {
  no_child = λ k key. refl;
  added_child = λ n k c key absent. node_child-node_add n k c absent;
  other_child = λ n k j c key key' other. node_child-node_add-other n k j c other;
  put_get = put_get;
  put_get_other = put_get_other;
}
  where
    put_get : (n : Node) (k t : Text) → is_key k ≡ true → node_get (node_tree.put n k t) k ≡ some t
    put_get n [] t key = cc
    put_get n (c ∷ k) t key = node_get-node_put n (c ∷ k) t

    put_get_other :
        (n : Node) (k j t : Text)
        → is_key k ≡ true
        → is_key j ≡ true
        → text_eq k j ≡ false
        → node_get (node_tree.put n k t) j ≡ node_get n j
    put_get_other n [] j t key key' other = cc
    put_get_other n (c ∷ k) j t key key' other = node_get-node_put-other n (c ∷ k) j t other

node_tree-ReadsBack : ReadsBack node_tree
unfolding node_get node_children node_set node_text
node_tree-ReadsBack = record {
  laws = node_tree-IsTree;
  get_other_child =
      λ n k j c key key' other. rw (node_get, node_child-node_add-other n k j c other) refl;
  uint64_back = λ n lt. refl;
  bool_back = bool_back;
  put_other_child = put_other_child;
  no_children = refl;
  pushed_children = node_children-node_add;
  put_children = put_children;
  value_back = λ v. refl;
}
  where
    bool_back : (b : Bool) → node_tree.parse_bool (node_tree.print_bool b) ≡ some b
    bool_back true = refl
    bool_back false = refl

    put_other_child :
        (n : Node) (k j t : Text)
        → is_key k ≡ true
        → is_key j ≡ true
        → text_eq k j ≡ false
        → node_child (node_tree.put n k t) j ≡ node_child n j
    put_other_child n [] j t key key' other = cc
    put_other_child n (c ∷ k) j t key key' other = node_child-node_put-other n (c ∷ k) j t other

    put_children :
        (n : Node) (k t : Text)
        → is_key k ≡ true
        → node_child n k ≡ none
        → node_children (node_tree.put n k t) ≡ node_children n ++ (k, node_set (leaf []) t) ∷ []
    put_children n [] t key absent = cc
    put_children n (c ∷ k) t key absent = node_children-node_put n (c ∷ k) t absent

-- One more child keeps a tree that is written so.
node_writes-node_add :
    (n : Node) (k : Text) (c : Node)
    → node_writes n ≡ true
    → node_text n ≡ []
    → node_writes c ≡ true
    → (node_writes (node_add n k c) ≡ true) × (node_text (node_add n k c) ≡ [])
unfolding node_writes node_add node_text
node_writes-node_add (leaf v) k c w t d = (rw (node_writes, t, d) refl, t)
node_writes-node_add (with_child j e rest) k c w t d =
    let (w', t') = node_writes-node_add rest k c (ground (arith, w)) t d in
    (rw (node_writes, w', t') (ground (arith, w)), t')

writes-make_array_from :
    (vs : List Text) (n : Node)
    → node_writes n ≡ true
    → node_text n ≡ []
    → node_writes (make_array_from node_tree n vs) ≡ true
unfolding make_array_from node_writes node_set
writes-make_array_from [] n w t = w
writes-make_array_from (v ∷ vs) n w t =
    let (w', t') = node_writes-node_add n [] (node_set (leaf []) v) w t refl in
    writes-make_array_from vs (node_add n [] (node_set (leaf []) v)) w' t'

-- A record whose metadata is one entry is written.
pub one_entry-IsWritable :
    (r : MemoryRecord) (v : Text) → r.metadata ≡ (text "k", v) ∷ [] → serializes node_env r ≡ true
unfolding serializes record_to_json put_fields put_metadata make_array node_put node_add node_writes
    node_text text_eq
one_entry-IsWritable r v h =
    rw (serializes, h, writes-make_array_from r.tags (leaf []) refl refl) refl

abbrev tagged_record : MemoryRecord
tagged_record = record sample_record {
  tags = text "x" ∷ text "y" ∷ [];
  metadata = (text "k", text "v") ∷ (text "l", text "w") ∷ [];
}

tagged_record-IsPrintable : IsPrintable node_env node_tree-ReadsBack tagged_record
unfolding text_lt
tagged_record-IsPrintable = record {
  created_at_ms_lt = omega arith;
  updated_at_ms_lt = omega arith;
  version_lt = omega arith;
  size_bytes_lt = omega arith;
  last_access_ms_lt = omega arith;
  hit_count_lt = omega arith;
  ttl_s_lt = omega arith;
  routing_epoch_lt = omega arith;
  score_back = refl;
  metadata_keys = (refl, (refl, tt));
  metadata_ordered = ((refl, tt), (tt, tt));
}

record_of_json-record_to_json_example :
    record_of_json node_env (record_to_json node_env tagged_record) ≡ tagged_record
record_of_json-record_to_json_example =
    record_of_json-record_to_json node_env node_tree-ReadsBack tagged_record
      tagged_record-IsPrintable
