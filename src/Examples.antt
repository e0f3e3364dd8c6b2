-- ===== src/Examples.antt =====
-- Worked examples on the engine of Samples.antt: each property at a concrete input.
mod Calls
mod Trees
mod Frames
use poorguy_mem.Store.InMemory.Scans.{InOrder, scan-InOrder}
use poorguy_mem.Common.{
  get_elem?, set, Pairwise, suc, take, ℕ, ◌+◌, ◌<◌, ◌≤◌, ◌≡◌, refl, true, false, ◌⊎◌, inl, none,
  some, List, [], ◌∷◌, ◌++◌, Text, text, text_lt, text_eq, find, insert, length, All, arith, ◌↔◌,
}
use poorguy_mem.Types.{MemoryRecord, KeyValueEntry, WriteEntry, WriteOp}
use poorguy_mem.Store.{apply_entries}
use poorguy_mem.Store.InMemory.{scan, no_shards, batch_write, shard_count}
use poorguy_mem.Store.InMemory.Lookup.{content, batch_write-refines}
use poorguy_mem.Store.InMemory.Counters.{
  IsConsistent, no_shards-IsConsistent, batch_write-IsConsistent,
}
use poorguy_mem.Tokens.{tokenize, scan_from, no_tokens}
use poorguy_mem.Tokens.Utf8.{decode_utf8_at}
use poorguy_mem.Tokens.Utf8Canonical.{IsScalar, encode_utf8, decode-encode, decode_canonical}
use poorguy_mem.Tokens.Runs.{NonEmpty, tokenize_total}
use poorguy_mem.Embedding.{embed, build_embedding}
use poorguy_mem.Embedding.Agree.{build_embedding-embed}
use poorguy_mem.Metrics.{reach, cleared, record_read_latency}
use poorguy_mem.Metrics.Percentile.{reach_first, hist_total, IsBucket, record_read_latency_counts}
use poorguy_mem.Engine.Keys.{
  record_map_key, build_doc_key, build_event_key, zero_pad_uint64, workspace_from_doc_key,
  memory_id_from_doc_key,
}
use poorguy_mem.Engine.Keys.Digits.{zero_pad_uint64_order, build_event_key_order}
use poorguy_mem.Engine.Keys.Parse.{doc_key_parts}
use poorguy_mem.Engine.State.{
  Engine, is_incoming_newer, compute_workspace_pin_stats, resident_limit_bytes,
}
use poorguy_mem.Engine.Memory.{upsert_record_in_memory, enforce_resident_hard_limit}
use poorguy_mem.Engine.Memory.Charges.{Charged, upsert-IsAccounted}
use poorguy_mem.Engine.Memory.Evicts.{IsPinned}
use poorguy_mem.Engine.Memory.Limit.{enforce_within, enforce_keeps_pinned}
use poorguy_mem.Engine.Write.{write, write_records, start_write, enforce_limit}
use poorguy_mem.Engine.Write.Failures.{Unchanged, write_failed}
use poorguy_mem.Engine.Write.Governance.{IsGoverned, write_loop-IsGoverned}
use poorguy_mem.Engine.Query.{query, select_hits, hit_expired}
use poorguy_mem.Engine.Query.Budget.{hit_tokens, query_within, IsSublist, select_hits_of}
use poorguy_mem.Engine.Compact.{compact, batch_limit}
use poorguy_mem.Engine.Compact.Keeps.{compact_within}
use poorguy_mem.Engine.Compact.Pinned.{compact_keeps_pinned}
use poorguy_mem.Engine.Warmup.{replay_events}
use poorguy_mem.Engine.Warmup.Replay.{
  IsKept, replay_events-keeps, is_incoming_newer_trans, is_incoming_newer_total,
}
use poorguy_mem.Engine.Accounting.Requests.{
  Request, write_request, query_request, pin_request, compact_request, warmup_request, handle_all,
  handle_all-IsAccounted,
}
use poorguy_mem.Samples.{
  sample_env, sample_fpu, sample_options, empty_engine, sample_record, write_input, query_input,
  no_time, no_phases, two_hits,
}

-- The engine with one pinned record.
abbrev one_record : Engine sample_env
one_record = upsert_record_in_memory sample_env empty_engine sample_record

abbrev sample_key : Text
sample_key = record_map_key (text "w") (text "a")

empty-Charged : Charged empty_engine
unfolding find
empty-Charged = record {
  records_unique = tt;
  keyed = tt;
  charges_unique = tt;
  covered = λ k h. refl;
  used_sum = refl;
}

one-Charged : Charged one_record
one-Charged = upsert-IsAccounted sample_env empty_engine sample_record empty-Charged

one_there : find sample_key one_record.records ≡ some sample_record
unfolding upsert_record_in_memory find insert record_map_key text_eq
one_there = refl

abbrev sample_requests : List Request
sample_requests =
    write_request write_input no_time
    ∷ query_request query_input no_phases no_time
    ∷ pin_request (text "w") (text "a") true
    ∷ compact_request []
    ∷ warmup_request
    ∷ []

handle_all-IsAccounted_example : Charged (handle_all sample_env one_record sample_requests)
handle_all-IsAccounted_example =
    handle_all-IsAccounted sample_env sample_requests one_record one-Charged

enforce_within_example :
    (enforce_resident_hard_limit sample_env none one_record
      ≡ some (enforce_limit sample_env one_record))
    × Charged (enforce_limit sample_env one_record)
    × ((resident_limit_bytes sample_env one_record.options ≡ 0)
        ⊎ ((enforce_limit sample_env one_record).resident_used_bytes
            ≤ resident_limit_bytes sample_env one_record.options)
        ⊎ All IsPinned (enforce_limit sample_env one_record).records)
enforce_within_example = enforce_within sample_env one_record one-Charged

enforce_keeps_pinned_example :
    find sample_key (enforce_limit sample_env one_record).records ≡ some sample_record
enforce_keeps_pinned_example =
    enforce_keeps_pinned sample_env one_record sample_key sample_record one-Charged one_there refl

compact_keeps_pinned_example :
    find sample_key (compact sample_env one_record (text "w")).1.records ≡ some sample_record
compact_keeps_pinned_example =
    compact_keeps_pinned sample_env one_record (text "w") sample_key sample_record one-Charged
      one_there refl refl

abbrev sample_entry : WriteOp → Text → WriteEntry
sample_entry op key' = record {
  op = op;
  entry = record { name_space = text "ns"; key = key'; value = text "v"; ts = 1 };
}

abbrev sample_entries : List WriteEntry
sample_entries =
    sample_entry WriteOp.upsert (text "k")
    ∷ sample_entry WriteOp.upsert (text "k")
    ∷ sample_entry WriteOp.delete (text "j")
    ∷ []

batch_write-refines_example :
    let (result, s') = batch_write length 40 no_shards sample_entries in
    (result.ok ≡ true)
    × (length s'.shards ≡ shard_count)
    × ((ns key : Text)
        → content length 40 s' ns key
          ≡ apply_entries (content length 40 no_shards) sample_entries ns key)
batch_write-refines_example = batch_write-refines length 40 no_shards sample_entries refl

batch_write-IsConsistent_example :
    IsConsistent length 40 (batch_write length 40 no_shards sample_entries).1
batch_write-IsConsistent_example =
    batch_write-IsConsistent length 40 no_shards sample_entries (no_shards-IsConsistent length 40)

abbrev sample_events : List KeyValueEntry
sample_events =
    record { name_space = text "ds_events"; key = text "ws/w/ts/1/seq/1"; value = text "a"; ts = 1 }
    ∷ []

replay_events-keeps_example :
    (r' : MemoryRecord) × (find sample_key
        (replay_events sample_env [] sample_events one_record).records
      ≡ some r')
    × IsKept sample_record r'
replay_events-keeps_example =
    replay_events-keeps sample_env [] sample_events one_record sample_key sample_record one_there

abbrev version_at : ℕ → Text → MemoryRecord
version_at t node = record sample_record { updated_at_ms = t; node_id = node }

is_incoming_newer_trans_example :
    (is_incoming_newer (version_at 5 (text "a")) (version_at 5 (text "a")) ≡ false)
    × (is_incoming_newer (version_at 5 (text "a")) (version_at 6 (text "a")) ≡ true)
unfolding is_incoming_newer text_lt
is_incoming_newer_trans_example =
    is_incoming_newer_trans (version_at 5 (text "a")) (version_at 5 (text "b"))
      (version_at 6 (text "a")) refl refl

is_incoming_newer_total_example :
    ((version_at 5 (text "a")).updated_at_ms ≡ 5)
    × (sample_record.version ≡ 1)
    × (text "a" ≡ text "a")
unfolding is_incoming_newer text_lt
is_incoming_newer_total_example =
    is_incoming_newer_total (version_at 5 (text "a")) (version_at 5 (text "a")) refl refl

write_loop-IsGoverned_example :
    IsGoverned sample_env sample_options
      (text "w")
      (compute_workspace_pin_stats one_record.records (text "w")).pinned
      (write_records sample_env write_input
        (start_write sample_env write_input one_record).0
        write_input.records
        (start_write sample_env write_input one_record).1)
unfolding upsert_record_in_memory
write_loop-IsGoverned_example = write_loop-IsGoverned sample_env one_record write_input

write_failed_example :
    Unchanged sample_env one_record
      (write sample_env one_record (record write_input { workspace_id = [] }) no_time).1
unfolding write
write_failed_example =
    write_failed sample_env one_record (record write_input { workspace_id = [] }) no_time refl

query_within_example :
    hit_tokens (query sample_env one_record query_input no_phases no_time).0.hits ≤ 2
query_within_example =
    query_within sample_env one_record query_input no_phases no_time (omega arith)

select_hits_of_example :
    IsSublist (select_hits one_record.records (text "w") 9 2 0 two_hits) two_hits
    × All
        (λ h. hit_expired one_record.records (text "w") 9 h ≡ false)
        (select_hits one_record.records (text "w") 9 2 0 two_hits)
select_hits_of_example = select_hits_of one_record.records (text "w") 9 2 0 two_hits

compact_within_example :
    (compact sample_env one_record []).0.tombstoned_count
      + (compact sample_env one_record []).0.deleted_count
    ≤ batch_limit sample_env sample_options
unfolding upsert_record_in_memory
compact_within_example = compact_within sample_env one_record []

build_event_key_order_example :
    text_lt (build_event_key (text "w") 99 7) (build_event_key (text "w") 100 3) ≡ true
build_event_key_order_example =
    build_event_key_order (text "w") 99 100 7 3 (omega arith) (omega arith) (omega arith)
      (omega arith) (inl (omega arith))

zero_pad_uint64_order_example :
    (length (zero_pad_uint64 9) ≡ 20)
    × ((text_lt (zero_pad_uint64 9) (zero_pad_uint64 10) ≡ true) ↔ (9 < 10))
zero_pad_uint64_order_example = zero_pad_uint64_order 9 10 (omega arith) (omega arith)

doc_key_parts_example :
    (workspace_from_doc_key (build_doc_key (text "docs") (text "a/b")) ≡ text "docs")
    × (memory_id_from_doc_key (build_doc_key (text "docs") (text "a/b")) ≡ text "a/b")
unfolding text_eq
doc_key_parts_example =
    doc_key_parts (text "docs") (text "a/b") ((refl, (refl, (refl, (refl, tt))))) refl refl refl

decode-encode_example :
    decode_utf8_at (text "ab" ++ (encode_utf8 8364 ++ text "c")) 2
    ≡ some (8364, length (encode_utf8 8364))
decode-encode_example = decode-encode (text "ab") (text "c") 8364 (omega arith)

decode_canonical_example :
    IsScalar 233 × (2 ≡ length (encode_utf8 233)) × (195 ∷ 169 ∷ [] ≡ encode_utf8 233)
unfolding decode_utf8_at
decode_canonical_example = decode_canonical (97 ∷ 195 ∷ 169 ∷ 98 ∷ []) 1 233 2 refl

tokenize_total_example :
    (11 ≤ (scan_from 11 (text "Hello world") 0 no_tokens).0)
    × All NonEmpty (tokenize (text "Hello world"))
tokenize_total_example = tokenize_total (text "Hello world")

build_embedding-embed_example :
    (build_embedding length sample_fpu (text "hello") 4 ≡ embed length sample_fpu (text "hello") 4)
    × (length (embed length sample_fpu (text "hello") 4) ≡ 4)
build_embedding-embed_example = build_embedding-embed length sample_fpu (text "hello") 4

record_read_latency_counts_example :
    ((b : ℕ) × (n : ℕ) × IsBucket sample_fpu no_time b
      × (get_elem? cleared.read_lat_hist b ≡ some n)
      × ((record_read_latency sample_fpu cleared no_time).read_lat_hist
          ≡ set cleared.read_lat_hist b (suc n)))
    × (hist_total (record_read_latency sample_fpu cleared no_time).read_lat_hist ≡ 1)
    × (length (record_read_latency sample_fpu cleared no_time).read_lat_hist ≡ 17)
record_read_latency_counts_example =
    record_read_latency_counts sample_fpu cleared no_time refl (omega arith)

scan-InOrder_example :
    Pairwise InOrder
      (scan (batch_write length 40 no_shards sample_entries).1 (text "ns") [] [] 5).entries
    × ((scan (batch_write length 40 no_shards sample_entries).1 (text "ns") [] [] 5).error ≡ [])
scan-InOrder_example =
    scan-InOrder (batch_write length 40 no_shards sample_entries).1 (text "ns") [] [] 5

reach_first_example :
    (k : ℕ) × (reach 5 0 0 (3 ∷ 1 ∷ 4 ∷ []) ≡ some (0 + k))
    × (0 + hist_total (take k (3 ∷ 1 ∷ 4 ∷ [])) < 5)
    × (5 ≤ 0 + hist_total (take (suc k) (3 ∷ 1 ∷ 4 ∷ [])))
reach_first_example = reach_first (3 ∷ 1 ∷ 4 ∷ []) 5 0 0 (omega arith) (omega arith) (omega arith)
