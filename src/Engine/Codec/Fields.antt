-- ===== src/Engine/Codec/Fields.antt =====
-- The round trip of a record through `SerializeRecord` and `DeserializeRecord` of
-- src/core/memory_engine.cpp, over a tree library as documented.
use poorguy_mem.Common.{
  ℕ, ◌<◌, ◌≡◌, refl, ap, ◌∙◌, Bool, true, false, Option, some, List, [], ◌∷◌, Text, text, text_eq,
  text_eq_iff, if◌then◌else◌, All, word, Bool-cases, inl, inr, none, All-mono, IsOrdered,
}
use mathlib.Core.Path.{subst}
use poorguy_mem.Types.{MemoryRecord}
use poorguy_mem.Json.{
  Ptree, get_string_or, get_uint64_or, get_bool_or, get_double_or, translated_back,
  read_string_array,
}
use poorguy_mem.Json.Laws.{is_key, ReadsBack, read_string_array-make_array}
use poorguy_mem.Engine.State.{Env}
use poorguy_mem.Engine.Codec.Metadata.{metadata_back}
use poorguy_mem.Engine.Codec.{put_fields, put_metadata, record_to_json, record_of_json}

-- What stands under a key after a list of writes.
abbrev last_of : Option Text → List (Text × Text) → Text → Option Text
last_of found [] k = found
last_of found ((j, v) ∷ writes) k = last_of (if text_eq j k then some v else found) writes k

module _ (tree : Ptree) (back : ReadsBack tree) where
  open tree use {Json}

  unfoldable put_list : Json → List (Text × Text) → Json
  put_list json [] = json
  put_list json ((k, v) ∷ writes) = put_list (tree.put json k v) writes

  get-put :
      (json : Json) (j k v : Text)
      → is_key j ≡ true
      → is_key k ≡ true
      → tree.get (tree.put json j v) k ≡ (if text_eq j k then some v else tree.get json k)
  get-put json j k v kj kk = elim (Bool-cases (text_eq j k)) [
    | inl e ↦ rw e (
        subst (λ m. tree.get (tree.put json j v) m ≡ some v) ((text_eq_iff j k).0 e)
          (back.laws.put_get json j v kj))
    | inr e ↦ rw e (back.laws.put_get_other json j k v kj kk e)
  ]

  get-put_list :
      (writes : List (Text × Text)) (json : Json) (k : Text)
      → is_key k ≡ true
      → All (λ (w : Text × Text). is_key w.0 ≡ true) writes
      → tree.get (put_list json writes) k ≡ last_of (tree.get json k) writes k
  unfolding put_list
  get-put_list [] json k kk a = refl
  get-put_list ((j, v) ∷ writes) json k kk a =
      get-put_list writes (tree.put json j v) k kk a.1
      ∙ ap (λ o. last_of o writes k) (get-put json j k v a.0 kk)

  put_list-get_child :
      (writes : List (Text × Text)) (json : Json) (k : Text)
      → is_key k ≡ true
      → All (λ (w : Text × Text). is_key w.0 ≡ true) writes
      → All (λ (w : Text × Text). text_eq w.0 k ≡ false) writes
      → tree.get_child_optional (put_list json writes) k ≡ tree.get_child_optional json k
  unfolding put_list
  put_list-get_child [] json k kk a other = refl
  put_list-get_child ((j, v) ∷ writes) json k kk a other =
      put_list-get_child writes (tree.put json j v) k kk a.1 other.1
      ∙ back.put_other_child json j k v a.0 kk other.0

module _ (env : Env) (back : ReadsBack env.tree) where
  open env use {tree, fpu}

  abbrev fields : MemoryRecord → List (Text × Text)
  fields r =
      (text "id", r.id)
      ∷ (text "workspace_id", r.workspace_id)
      ∷ (text "session_id", r.session_id)
      ∷ (text "source", r.source)
      ∷ (text "content", r.content)
      ∷ (text "pinned", tree.print_bool r.pinned)
      ∷ (text "tombstone", tree.print_bool r.tombstone)
      ∷ (text "created_at_ms", tree.print_uint64 r.created_at_ms)
      ∷ (text "updated_at_ms", tree.print_uint64 r.updated_at_ms)
      ∷ (text "version", tree.print_uint64 r.version)
      ∷ (text "size_bytes", tree.print_uint64 r.size_bytes)
      ∷ (text "last_access_ms", tree.print_uint64 r.last_access_ms)
      ∷ (text "hit_count", tree.print_uint64 r.hit_count)
      ∷ (text "importance_score", tree.print_double r.importance_score)
      ∷ (text "tier", r.tier)
      ∷ (text "node_id", r.node_id)
      ∷ (text "ttl_s", tree.print_uint64 r.ttl_s)
      ∷ (text "dedup_key", r.dedup_key)
      ∷ (text "shard_id", r.shard_id)
      ∷ (text "replica_role", r.replica_role)
      ∷ (text "routing_epoch", tree.print_uint64 r.routing_epoch)
      ∷ (text "shard_hint", r.shard_hint)
      ∷ []

  fields-is_key : (r : MemoryRecord) → All (λ (w : Text × Text). is_key w.0 ≡ true) (fields r)
  fields-is_key r = (
    refl,
    (
      refl,
      (
        refl,
        (
          refl,
          (
            refl,
            (
              refl,
              (
                refl,
                (
                  refl,
                  (
                    refl,
                    (
                      refl,
                      (
                        refl,
                        (
                          refl,
                          (
                            refl,
                            (
                              refl,
                              (refl, (refl, (refl, (refl, (refl, (refl, (refl, (refl, tt)))))))),
                            ),
                          ),
                        ),
                      ),
                    ),
                  ),
                ),
              ),
            ),
          ),
        ),
      ),
    ),
  )

  put_fields-put_list :
      (json : tree.Json) (r : MemoryRecord)
      → put_fields env json r ≡ put_list tree back json (fields r)
  unfolding put_fields put_list
  put_fields-put_list json r = refl

  -- A key of the record that is not one of its two children reads what was put there.
  get_field :
      (r : MemoryRecord) (k v : Text)
      → is_key k ≡ true
      → text_eq (text "tags") k ≡ false
      → text_eq (text "metadata") k ≡ false
      → last_of (tree.get tree.empty k) (fields r) k ≡ some v
      → tree.get (record_to_json env r) k ≡ some v
  unfolding record_to_json
  get_field r k v kk t m e =
      back.get_other_child _ (text "metadata") k _ refl kk m
      ∙ back.get_other_child _ (text "tags") k _ refl kk t
      ∙ ap (λ j. tree.get j k) (put_fields-put_list tree.empty r)
      ∙ get-put_list tree back (fields r) tree.empty k kk (fields-is_key r)
      ∙ e

  -- A key that is none of the two children.
  abbrev IsField : Text × Text → Type 0
  IsField w = (text_eq w.0 (text "tags") ≡ false) × (text_eq w.0 (text "metadata") ≡ false)

  fields-IsField : (r : MemoryRecord) → All IsField (fields r)
  unfolding text_eq
  fields-IsField r = (
    (refl, refl),
    (
      (refl, refl),
      (
        (refl, refl),
        (
          (refl, refl),
          (
            (refl, refl),
            (
              (refl, refl),
              (
                (refl, refl),
                (
                  (refl, refl),
                  (
                    (refl, refl),
                    (
                      (refl, refl),
                      (
                        (refl, refl),
                        (
                          (refl, refl),
                          (
                            (refl, refl),
                            (
                              (refl, refl),
                              (
                                (refl, refl),
                                (
                                  (refl, refl),
                                  (
                                    (refl, refl),
                                    (
                                      (refl, refl),
                                      (
                                        (refl, refl),
                                        ((refl, refl), ((refl, refl), ((refl, refl), tt))),
                                      ),
                                    ),
                                  ),
                                ),
                              ),
                            ),
                          ),
                        ),
                      ),
                    ),
                  ),
                ),
              ),
            ),
          ),
        ),
      ),
    ),
  )

  no_tags :
      (r : MemoryRecord)
      → tree.get_child_optional (put_fields env tree.empty r) (text "tags") ≡ none
  no_tags r =
      ap (λ j. tree.get_child_optional j (text "tags")) (put_fields-put_list tree.empty r)
      ∙ put_list-get_child tree back (fields r) tree.empty (text "tags") refl (fields-is_key r)
          (All-mono IsField _ (fields r) (λ w h. h.0) (fields-IsField r))
      ∙ back.laws.no_child (text "tags") refl

  no_metadata :
      (r : MemoryRecord)
      → tree.get_child_optional (put_fields env tree.empty r) (text "metadata") ≡ none
  no_metadata r =
      ap (λ j. tree.get_child_optional j (text "metadata")) (put_fields-put_list tree.empty r)
      ∙ put_list-get_child tree back (fields r) tree.empty (text "metadata") refl (fields-is_key r)
          (All-mono IsField _ (fields r) (λ w h. h.1) (fields-IsField r))
      ∙ back.laws.no_child (text "metadata") refl

  metadata_child :
      (r : MemoryRecord)
      → tree.get_child_optional (record_to_json env r) (text "metadata")
        ≡ some (put_metadata env tree.empty r.metadata)
  unfolding record_to_json text_eq
  metadata_child r =
      back.laws.added_child _ (text "metadata") _ refl
        (back.laws.other_child _ (text "tags") (text "metadata") _ refl refl refl ∙ no_metadata r)

  tags_back :
      (r : MemoryRecord) → read_string_array tree (record_to_json env r) (text "tags") ≡ r.tags
  unfolding record_to_json text_eq
  tags_back r = read_string_array-make_array tree back (record_to_json env r) (text "tags") r.tags (
      back.laws.other_child _ (text "metadata") (text "tags") _ refl refl refl
      ∙ back.laws.added_child _ (text "tags") _ refl (no_tags r))

  string_back :
      (r : MemoryRecord) (k fallback v : Text)
      → is_key k ≡ true
      → text_eq (text "tags") k ≡ false
      → text_eq (text "metadata") k ≡ false
      → last_of (tree.get tree.empty k) (fields r) k ≡ some v
      → get_string_or tree (record_to_json env r) k fallback ≡ v
  unfolding get_string_or
  string_back r k fallback v kk t m e = rw (get_string_or, get_field r k v kk t m e) refl

  bool_back :
      (r : MemoryRecord) (k : Text) (b : Bool)
      → is_key k ≡ true
      → text_eq (text "tags") k ≡ false
      → text_eq (text "metadata") k ≡ false
      → last_of (tree.get tree.empty k) (fields r) k ≡ some (tree.print_bool b)
      → get_bool_or tree (record_to_json env r) k false ≡ b
  unfolding get_bool_or
  bool_back r k b kk t m e =
      translated_back tree tree.parse_bool _ (tree.print_bool b) false b (get_field r k _ kk t m e)
        (back.bool_back b)

  uint64_back :
      (r : MemoryRecord) (k : Text) (n : ℕ)
      → is_key k ≡ true
      → text_eq (text "tags") k ≡ false
      → text_eq (text "metadata") k ≡ false
      → last_of (tree.get tree.empty k) (fields r) k ≡ some (tree.print_uint64 n)
      → n < word
      → get_uint64_or tree (record_to_json env r) k 0 ≡ n
  unfolding get_uint64_or
  uint64_back r k n kk t m e lt =
      translated_back tree tree.parse_uint64 _ (tree.print_uint64 n) 0 n (get_field r k _ kk t m e)
        (back.uint64_back n lt)

  -- The numbers are those of the machine, the score is one that is read back from its text, and the
  -- metadata is an ordered map whose keys are not empty and hold no dot.
  pub record IsPrintable (r : MemoryRecord) : Type 0 where
    pub created_at_ms_lt : r.created_at_ms < word
    pub updated_at_ms_lt : r.updated_at_ms < word
    pub version_lt : r.version < word
    pub size_bytes_lt : r.size_bytes < word
    pub last_access_ms_lt : r.last_access_ms < word
    pub hit_count_lt : r.hit_count < word
    pub ttl_s_lt : r.ttl_s < word
    pub routing_epoch_lt : r.routing_epoch < word
    pub score_back :
        tree.parse_double (tree.print_double r.importance_score) ≡ some r.importance_score
    pub metadata_keys : All (λ (e : Text × Text). is_key e.0 ≡ true) r.metadata
    pub metadata_ordered : IsOrdered r.metadata

  -- Over a tree library as documented: a record is read back whole from the tree that is made of it,
  -- where its numbers are below 2^64, its score is read back from its text, and its metadata is an
  -- ordered map whose keys are not empty and hold no dot.
  pub record_of_json-record_to_json :
      (r : MemoryRecord) → IsPrintable r → record_of_json env (record_to_json env r) ≡ r
  unfolding record_of_json text_eq get_double_or
  record_of_json-record_to_json r h =
      rw
        (
          record_of_json,
          string_back r (text "id") [] r.id refl refl refl refl,
          string_back r (text "workspace_id") [] r.workspace_id refl refl refl refl,
          string_back r (text "session_id") [] r.session_id refl refl refl refl,
          string_back r (text "source") [] r.source refl refl refl refl,
          string_back r (text "content") [] r.content refl refl refl refl,
          tags_back r,
          metadata_child r,
          metadata_back env back r.metadata h.metadata_keys h.metadata_ordered,
          string_back r (text "dedup_key") [] r.dedup_key refl refl refl refl,
          bool_back r (text "pinned") r.pinned refl refl refl refl,
          bool_back r (text "tombstone") r.tombstone refl refl refl refl,
          uint64_back r (text "created_at_ms") r.created_at_ms refl refl refl refl
              h.created_at_ms_lt,
          uint64_back r (text "updated_at_ms") r.updated_at_ms refl refl refl refl
              h.updated_at_ms_lt,
          uint64_back r (text "version") r.version refl refl refl refl h.version_lt,
          uint64_back r (text "size_bytes") r.size_bytes refl refl refl refl h.size_bytes_lt,
          uint64_back r (text "last_access_ms") r.last_access_ms refl refl refl refl
              h.last_access_ms_lt,
          uint64_back r (text "hit_count") r.hit_count refl refl refl refl h.hit_count_lt,
          double_back,
          string_back r (text "tier") (text "hot") r.tier refl refl refl refl,
          string_back r (text "node_id") [] r.node_id refl refl refl refl,
          uint64_back r (text "ttl_s") r.ttl_s refl refl refl refl h.ttl_s_lt,
          string_back r (text "shard_id") [] r.shard_id refl refl refl refl,
          string_back r (text "replica_role") [] r.replica_role refl refl refl refl,
          uint64_back r (text "routing_epoch") r.routing_epoch refl refl refl refl
              h.routing_epoch_lt,
          string_back r (text "shard_hint") [] r.shard_hint refl refl refl refl,
        )
        refl
    where
      double_back :
          get_double_or tree (record_to_json env r) (text "importance_score") (fpu.literal 1 0)
          ≡ r.importance_score
      double_back =
          translated_back tree tree.parse_double _ (tree.print_double r.importance_score)
            (fpu.literal 1 0) r.importance_score
            (get_field r (text "importance_score") _ refl refl refl refl) h.score_back
