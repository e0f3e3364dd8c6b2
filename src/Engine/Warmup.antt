-- ===== src/Engine/Warmup.antt =====
-- `Warmup` and `ReplayProjectionEvents` of src/core/memory_engine.cpp.
pub mod Cases
pub mod Replay
use poorguy_mem.Common.{
  ℕ, Bool, true, false, ◌&&◌, ◌||◌, not, Option, none, some, List, [], ◌∷◌, Text, text, text_le,
  if◌then◌else◌, ◌==◌, Map, find, insert, is_empty, starts_with, drop,
}
use poorguy_mem.Types.{MemoryRecord, KeyValueEntry}
use poorguy_mem.Json.{get_string_or}
use poorguy_mem.Store.{ScanResult}
use poorguy_mem.Engine.Keys.{
  doc_ns, events_ns, projection_ckpt_ns, workspace_from_doc_key, memory_id_from_doc_key,
  workspace_from_event_key, record_map_key, is_missing_scan_namespace_error,
}
use poorguy_mem.Engine.State.{Env, Engine, compute_record_size_bytes, is_incoming_newer}
use poorguy_mem.Engine.Codec.{deserialize_record}
use poorguy_mem.Engine.Memory.{upsert_record_in_memory}
use poorguy_mem.Engine.Write.{enforce_limit}
use poorguy_mem.Engine.Pin.{Outcome, done, fail}

-- The defaults for what a stored record lacks.
unfoldable pub fill_missing : MemoryRecord → MemoryRecord
fill_missing r =
    let r1 : MemoryRecord =
      if r.size_bytes == 0 then record r { size_bytes = compute_record_size_bytes r } else r in
    let r2 : MemoryRecord =
      if r1.last_access_ms == 0 then record r1 { last_access_ms = r1.updated_at_ms } else r1 in
    if is_empty r2.tier
    then record r2 { tier = if r2.tombstone then text "cold" else text "hot" }
    else r2

abbrev pub or_else : Text → Text → Text
or_else t fallback = if is_empty t then fallback else t

module _ (env : Env) where
  open env use {store, tree}

  -- A document with the ids that its key gives where it has none of its own; `none` is skipped.
  unfoldable pub document_record : KeyValueEntry → Option MemoryRecord
  document_record entry = elim (deserialize_record env entry.value) [
    | none ↦ none
    | some r ↦
        let r' : MemoryRecord = record r {
          workspace_id = or_else r.workspace_id (workspace_from_doc_key entry.key);
          id = or_else r.id (memory_id_from_doc_key entry.key);
        } in
        if is_empty r'.id || is_empty r'.workspace_id then none else some (fill_missing r')
  ]

  unfoldable pub load_documents : Engine env → List KeyValueEntry → Engine env
  load_documents e [] = e
  load_documents e (entry ∷ entries) =
      load_documents
        (elim (document_record entry) [ none ↦ e | some r ↦ upsert_record_in_memory env e r ])
        entries

  -- The entries of a scan: none where the namespace is missing, or the error.
  unfoldable pub scan_namespace : Engine env → Text → Outcome (Option (List KeyValueEntry))
  scan_namespace e ns =
      let res = store.scan e.store ns [] [] 0 in
      if is_empty res.error
      then done (some res.entries)
      else if is_missing_scan_namespace_error res.error
      then done none
      else fail res.error

  unfoldable pub checkpoint_workspace : KeyValueEntry → tree.Json → Text
  checkpoint_workspace entry json =
      or_else (get_string_or tree json (text "workspace_id") [])
        (if starts_with entry.key (text "ws/") then drop 3 entry.key else [])

  unfoldable pub read_checkpoint : KeyValueEntry → Map Text → Map Text
  read_checkpoint entry checkpoints = elim (tree.read_json entry.value) [
    | none ↦ checkpoints
    | some json ↦
        let workspace = checkpoint_workspace entry json in
        let event_key = get_string_or tree json (text "event_key") [] in
        if is_empty workspace || is_empty event_key
        then checkpoints
        else insert workspace event_key checkpoints
  ]

  unfoldable pub read_checkpoints : List KeyValueEntry → Map Text → Map Text
  read_checkpoints [] checkpoints = checkpoints
  read_checkpoints (entry ∷ entries) checkpoints =
      read_checkpoints entries (read_checkpoint entry checkpoints)

  -- The record that an event carries, with the ids of the event where it has none of its own.
  unfoldable pub event_record : Text → tree.Json → Option MemoryRecord
  event_record workspace json =
      elim (deserialize_record env (get_string_or tree json (text "record_payload") [])) [
        | none ↦ none
        | some r ↦
            let r' : MemoryRecord = record r {
              workspace_id = or_else r.workspace_id workspace;
              id = or_else r.id (get_string_or tree json (text "memory_id") []);
            } in
            if is_empty r'.id then none else some r'
      ]

  -- An event at or before the checkpoint of its workspace is not replayed.
  unfoldable pub is_checkpointed : Map Text → Text → Text → Bool
  is_checkpointed checkpoints workspace key = elim (find workspace checkpoints) [
    | none ↦ false
    | some ckpt ↦ text_le key ckpt
  ]

  unfoldable pub should_apply : Engine env → MemoryRecord → Bool
  should_apply e incoming =
      elim (find (record_map_key incoming.workspace_id incoming.id) e.records) [
        | none ↦ true
        | some current ↦ is_incoming_newer current incoming
      ]

  unfoldable pub apply_incoming : Engine env → MemoryRecord → Engine env
  apply_incoming e incoming =
      if should_apply e incoming then upsert_record_in_memory env e (fill_missing incoming) else e

  abbrev pub event_workspace : KeyValueEntry → tree.Json → Text
  event_workspace event json =
      or_else (get_string_or tree json (text "workspace_id") [])
        (workspace_from_event_key event.key)

  -- One round of the loop over the events.
  unfoldable pub replay_event : Map Text → KeyValueEntry → Engine env → Engine env
  replay_event checkpoints event e = elim (tree.read_json event.value) [
    | none ↦ e
    | some json ↦
        let workspace = event_workspace event json in
        if is_empty workspace || is_checkpointed checkpoints workspace event.key
        then e
        else elim (event_record workspace json) [
          | none ↦ e
          | some incoming ↦ apply_incoming e incoming
        ]
  ]

  unfoldable pub replay_events : Map Text → List KeyValueEntry → Engine env → Engine env
  replay_events checkpoints [] e = e
  replay_events checkpoints (event ∷ events) e =
      replay_events checkpoints events (replay_event checkpoints event e)

  abbrev pub entries_of : Option (List KeyValueEntry) → List KeyValueEntry
  entries_of none = []
  entries_of (some entries) = entries

  unfoldable pub replay_projection_events : Engine env → Outcome (Unit {0}) × Engine env
  replay_projection_events e = elim (scan_namespace e projection_ckpt_ns) [
    | fail error ↦ (fail error, e)
    | done ckpt_entries ↦ elim (scan_namespace e events_ns) [
      | fail error ↦ (fail error, e)
      | done events ↦ (
        done tt,
        replay_events (read_checkpoints (entries_of ckpt_entries) []) (entries_of events) e,
      )
    ]
  ]

  unfoldable pub warmup : Engine env → Outcome (Unit {0}) × Engine env
  warmup e = elim (scan_namespace e doc_ns) [
    | fail error ↦ (fail error, e)
    | done entries ↦
        let (result, e2) = replay_projection_events (load_documents e (entries_of entries)) in
        elim result [ fail error ↦ (fail error, e2) | done _ ↦ (done tt, enforce_limit env e2) ]
  ]
