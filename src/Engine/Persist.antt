-- ===== src/Engine/Persist.antt =====
-- `PersistRecord`, `DeleteRecordStorage`, `AppendProjectionEvent` and `AppendProjectionCheckpoint`
-- of src/core/memory_engine.cpp: the entries that they append to the write list. (Their output
-- pointers are never null, and the functions then never fail.)
use poorguy_mem.Common.{
  ℕ, ◌%◌, max, Option, none, some, List, [], ◌∷◌, ◌++◌, Text, text, if◌then◌else◌, Map, find,
  length, is_empty, add64,
}
use poorguy_mem.Types.{MemoryRecord, OpType, WriteEntry, WriteOp}
use poorguy_mem.Json.{make_array, put_uint64}
use poorguy_mem.Tokens.Terms.{unique_terms, term_frequencies}
use poorguy_mem.Tokens.{tokenize}
use poorguy_mem.Embedding.{build_embedding, encode_vector_bucket_signature, encode_vector_csv}
use poorguy_mem.Engine.Keys.{
  doc_ns, term_dict_ns, posting_blk_ns, vec_code_ns, vec_fp_ns, events_ns, projection_ckpt_ns,
  build_doc_key, build_term_dict_key, build_posting_key, build_vec_code_key, build_vec_fp_key,
  build_event_key, build_ckpt_key, record_map_key,
}
use poorguy_mem.Engine.State.{Env, Engine, now_ms}
use poorguy_mem.Engine.Codec.{serialize_record}

abbrev pub upsert_entry : Text → Text → Text → ℕ → WriteEntry
upsert_entry ns key value ts = record {
  op = WriteOp.upsert;
  entry = record { name_space = ns; key = key; value = value; ts = ts };
}

abbrev pub delete_entry : Text → Text → ℕ → WriteEntry
delete_entry ns key ts = record {
  op = WriteOp.delete;
  entry = record { name_space = ns; key = key; value = []; ts = ts };
}

-- The text of a record that is known to be written. `Write` ends before it where `SerializeRecord`
-- throws. `Pin` and a compaction change no metadata, and take their records from those that a write
-- has serialized, or that were read from the text of one: the names read there hold no dot, as the
-- paths were split when they were put, so the library writes their trees too. (A store that another
-- program has filled is not considered.)
abbrev payload_of : Option Text → Text
payload_of none = []
payload_of (some payload) = payload

module _ (env : Env) where
  open env use {tree, float, hash}

  unfoldable pub bucket_for_posting : Text → Text → ℕ
  bucket_for_posting workspace_id term = hash (workspace_id ++ (text ":" ++ term)) % 16

  unfoldable pub delete_postings : MemoryRecord → ℕ → List Text → List WriteEntry
  delete_postings rec ts [] = []
  delete_postings rec ts (term ∷ terms) =
      delete_entry posting_blk_ns
        (build_posting_key rec.workspace_id term (bucket_for_posting rec.workspace_id term) rec.id)
        ts
      ∷ delete_postings rec ts terms

  -- The `delete_terms_for` closure, and the two vector entries that follow each of its calls.
  unfoldable pub delete_index_for : MemoryRecord → ℕ → List WriteEntry
  delete_index_for rec ts =
      delete_postings rec ts (unique_terms (tokenize rec.content))
      ++ (delete_entry vec_code_ns
            (build_vec_code_key rec.workspace_id (bucket_for_posting rec.workspace_id rec.id)
              rec.id)
            ts
          ∷ delete_entry vec_fp_ns (build_vec_fp_key rec.workspace_id rec.id) ts
          ∷ [])

  unfoldable pub vector_entries : MemoryRecord → List WriteEntry
  vector_entries r =
      let embedding = build_embedding hash float r.content 64 in
      let vec_bucket = encode_vector_bucket_signature hash float embedding % 256 in
      let c1 = tree.put tree.empty (text "model_id") (text "hash-embed-v1") in
      let c2 = put_uint64 tree c1 (text "bucket") vec_bucket in
      let c3 = put_uint64 tree c2 (text "dim") 64 in
      let vec_code = put_uint64 tree c3 (text "updated_at_ms") r.updated_at_ms in
      let f1 = tree.put tree.empty (text "model_id") (text "hash-embed-v1") in
      let f2 = put_uint64 tree f1 (text "dim") 64 in
      let f3 = put_uint64 tree f2 (text "updated_at_ms") r.updated_at_ms in
      let vec_fp = tree.put f3 (text "vector_csv") (encode_vector_csv hash float embedding) in
      upsert_entry vec_code_ns (build_vec_code_key r.workspace_id vec_bucket r.id)
        (tree.write_json vec_code) r.updated_at_ms
      ∷ upsert_entry vec_fp_ns (build_vec_fp_key r.workspace_id r.id) (tree.write_json vec_fp)
          r.updated_at_ms
      ∷ []

  unfoldable pub term_entries : MemoryRecord → ℕ → Map ℕ → List WriteEntry
  term_entries r doc_len [] = []
  term_entries r doc_len ((term, tf) ∷ rest) =
      let key =
        build_posting_key r.workspace_id term (bucket_for_posting r.workspace_id term) r.id in
      let d1 = put_uint64 tree tree.empty (text "df") 1 in
      let d2 = put_uint64 tree d1 (text "cf") tf in
      let d3 = put_uint64 tree d2 (text "max_tf") tf in
      let d4 = put_uint64 tree d3 (text "updated_at") r.updated_at_ms in
      let term_dict = tree.add_child d4 (text "block_refs") (make_array tree (key ∷ [])) in
      let p1 = tree.put tree.empty (text "doc_id") r.id in
      let p2 = put_uint64 tree p1 (text "tf") tf in
      let p3 = put_uint64 tree p2 (text "doc_len") doc_len in
      let p4 = tree.put p3 (text "flags") (if r.pinned then text "pinned" else text "normal") in
      let posting = put_uint64 tree p4 (text "updated_at") r.updated_at_ms in
      upsert_entry term_dict_ns (build_term_dict_key r.workspace_id term)
        (tree.write_json term_dict) r.updated_at_ms
      ∷ upsert_entry posting_blk_ns key (tree.write_json posting) r.updated_at_ms
      ∷ term_entries r doc_len rest

  abbrev pub old_index : Option MemoryRecord → ℕ → List WriteEntry
  old_index none ts = []
  old_index (some old) ts = delete_index_for old ts

  -- `PersistRecord`: the document, then the deletes of the old index, then the new index or, for a
  -- tombstone, the deletes of the index of the record itself.
  unfoldable pub persist_record : Map MemoryRecord → MemoryRecord → List WriteEntry
  persist_record records r =
      let old = find (record_map_key r.workspace_id r.id) records in
      let tokens = tokenize r.content in
      upsert_entry doc_ns (build_doc_key r.workspace_id r.id) (payload_of (serialize_record env r))
        r.updated_at_ms
      ∷ (old_index old r.updated_at_ms
          ++ (if r.tombstone
              then delete_index_for r r.updated_at_ms
              else vector_entries r ++ term_entries r (length tokens) (term_frequencies [] tokens)))

  -- Each entry of `DeleteRecordStorage` carries a reading of the clock.
  unfoldable pub delete_storage_postings :
      Engine env → MemoryRecord → List Text → List WriteEntry × Engine env
  delete_storage_postings e rec [] = ([], e)
  delete_storage_postings e rec (term ∷ terms) =
      let (now, e') = now_ms env e in
      let (entries, e'') = delete_storage_postings e' rec terms in
      (
        delete_entry posting_blk_ns
              (build_posting_key rec.workspace_id term (bucket_for_posting rec.workspace_id term)
                rec.id)
              now
            ∷ entries,
        e'',
      )

  unfoldable pub delete_record_storage : Engine env → MemoryRecord → List WriteEntry × Engine env
  delete_record_storage e rec =
      let terms = unique_terms (tokenize rec.content) in
      let (t1, e1) = now_ms env e in
      let (t2, e2) = now_ms env e1 in
      let (t3, e3) = now_ms env e2 in
      let (entries, e4) = delete_storage_postings e3 rec terms in
      (
        delete_entry doc_ns (build_doc_key rec.workspace_id rec.id) t1
            ∷ delete_entry vec_code_ns
                (build_vec_code_key rec.workspace_id (bucket_for_posting rec.workspace_id rec.id)
                  rec.id)
                t2
            ∷ delete_entry vec_fp_ns (build_vec_fp_key rec.workspace_id rec.id) t3
            ∷ entries,
        e4,
      )

  abbrev op_name : OpType → Text
  op_name OpType.pin = text "pin"
  op_name OpType.delete = text "delete"
  op_name OpType.upsert = text "upsert"

  -- What `AppendProjectionEvent` appends, the key of the event, and the engine after it.
  pub record Appended : Type 0 where
    pub entry : WriteEntry
    pub event_key : Text
    pub engine : Engine env

  unfoldable pub append_projection_event : Engine env → MemoryRecord → OpType → Text → Appended
  append_projection_event e r op_type reason =
      let (read, e1) = now_ms env e in
      let now = max r.updated_at_ms read in
      let seq = add64 e1.local_seq 1 in
      let workspace = if is_empty r.workspace_id then text "default" else r.workspace_id in
      let event_key = build_event_key workspace now seq in
      let v1 = tree.put tree.empty (text "event_key") event_key in
      let v2 = tree.put v1 (text "workspace_id") workspace in
      let v3 = tree.put v2 (text "memory_id") r.id in
      let v4 = tree.put v3 (text "reason") reason in
      let v5 = tree.put v4 (text "op_type") (op_name op_type) in
      let v6 = put_uint64 tree v5 (text "updated_at_ms") now in
      let v7 = put_uint64 tree v6 (text "version") r.version in
      let v8 = tree.put v7 (text "node_id") e.node_id in
      let event = tree.put v8 (text "record_payload") (payload_of (serialize_record env r)) in
      record {
        entry = upsert_entry events_ns event_key (tree.write_json event) now;
        event_key = event_key;
        engine = record e1 { local_seq = seq };
      }

  unfoldable pub append_projection_checkpoint : Text → Text → ℕ → List WriteEntry
  append_projection_checkpoint workspace_id event_key ts =
      if is_empty workspace_id
      then []
      else if is_empty event_key
      then []
      else (let c1 = tree.put tree.empty (text "workspace_id") workspace_id in
          let c2 = tree.put c1 (text "event_key") event_key in
          let ckpt = put_uint64 tree c2 (text "updated_at_ms") ts in
          upsert_entry projection_ckpt_ns (build_ckpt_key workspace_id) (tree.write_json ckpt) ts
          ∷ [])
