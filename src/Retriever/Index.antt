-- ===== src/Retriever/Index.antt =====
-- `HybridRetriever::Index`, `Remove`, `EstimatedBytes` and `EstimateDocBytes` of
-- src/core/retriever.cpp, with the default parts of its constructor: the analyzer of
-- src/core/default_analyzer.cpp, the hash embedding and the LSH index. Sizes in memory do not reach
-- 2^64, so the sums of them are plain.
use poorguy_mem.Common.{
  ℕ, ◌+◌, ◌-◌, ◌*◌, ◌&&◌, not, Option, none, some, List, [], ◌∷◌, Text, text_eq, if◌then◌else◌, ltb,
  leb, Map, find, insert, erase, length, is_empty, Double, Fpu,
}
use poorguy_mem.Types.{MemoryRecord}
use poorguy_mem.Tokens.{tokenize}
use poorguy_mem.Tokens.Terms.{unique_terms, term_frequencies}
use poorguy_mem.Embedding.{embed}
use poorguy_mem.Retriever.Vectors.{WorkspaceVectors, upsert_vector, remove_vector, vector_bytes}

-- `IndexedDoc`
pub record IndexedDoc : Type 0 where
  pub memory : MemoryRecord
  pub tf : Map ℕ
  pub doc_len : ℕ
  pub embedding : List Double

-- `WorkspaceSnapshot`
pub record WorkspaceSnapshot : Type 0 where
  pub docs : Map IndexedDoc
  pub df : Map ℕ
  pub total_doc_len : ℕ

-- `HybridRetriever`
pub record HybridRetriever : Type 0 where
  pub embedding_dim : ℕ
  pub vector_index : WorkspaceVectors
  pub snapshots : Map WorkspaceSnapshot

abbrev pub no_snapshot : WorkspaceSnapshot
no_snapshot = record { docs = []; df = []; total_doc_len = 0 }

abbrev pub snapshot_of : Text → Map WorkspaceSnapshot → WorkspaceSnapshot
snapshot_of workspace_id snapshots = elim (find workspace_id snapshots) [
  | none ↦ no_snapshot
  | some snapshot ↦ snapshot
]

-- `++df[term]` for each term of one document.
unfoldable pub add_terms : Map ℕ → Map ℕ → Map ℕ
add_terms df [] = df
add_terms df ((term, n) ∷ tf) =
    add_terms
      (if ltb 0 n then insert term (elim (find term df) [ none ↦ 1 | some m ↦ m + 1 ]) df else df)
      tf

unfoldable pub document_frequency_from : Map ℕ → Map IndexedDoc → Map ℕ
document_frequency_from df [] = df
document_frequency_from df ((id, doc) ∷ docs) = document_frequency_from (add_terms df doc.tf) docs

unfoldable pub build_document_frequency : Map IndexedDoc → Map ℕ
build_document_frequency docs = document_frequency_from [] docs

-- The guarded subtraction of the length of a document that goes.
unfoldable pub drop_length : Option IndexedDoc → ℕ → ℕ
drop_length none total = total
drop_length (some prev) total = if leb prev.doc_len total then total - prev.doc_len else total

-- The snapshot without a document that it holds.
unfoldable pub remove_doc : Text → IndexedDoc → WorkspaceSnapshot → WorkspaceSnapshot
remove_doc memory_id doc old =
    let docs = erase memory_id old.docs in
    record {
      docs = docs;
      df = build_document_frequency docs;
      total_doc_len = drop_length (some doc) old.total_doc_len;
    }

-- The snapshot with a document in the place of the one of its id, if there is one.
unfoldable pub put_doc : Text → IndexedDoc → WorkspaceSnapshot → WorkspaceSnapshot
put_doc memory_id doc old =
    let docs = insert memory_id doc old.docs in
    record {
      docs = docs;
      df = build_document_frequency docs;
      total_doc_len = drop_length (find memory_id old.docs) old.total_doc_len + doc.doc_len;
    }

unfoldable pub remove_from : Map WorkspaceSnapshot → Text → Text → Map WorkspaceSnapshot
remove_from snapshots workspace_id memory_id = elim (find workspace_id snapshots) [
  | none ↦ snapshots
  | some old ↦ elim (find memory_id old.docs) [
    | none ↦ snapshots
    | some doc ↦
        let next = remove_doc memory_id doc old in
        if is_empty next.docs
        then erase workspace_id snapshots
        else insert workspace_id next snapshots
  ]
]

-- `HybridRetriever::Remove`
unfoldable pub remove : HybridRetriever → Text → Text → HybridRetriever
remove s workspace_id memory_id = record s {
  snapshots = remove_from s.snapshots workspace_id memory_id;
  vector_index = remove_vector s.vector_index workspace_id memory_id;
}

unfoldable pub sum_lengths : List Text → ℕ
sum_lengths [] = 0
sum_lengths (t ∷ ts) = length t + sum_lengths ts

unfoldable pub sum_pairs : Map Text → ℕ
sum_pairs [] = 0
sum_pairs ((k, v) ∷ m) = length k + length v + sum_pairs m

unfoldable pub estimate_record_bytes : MemoryRecord → ℕ
estimate_record_bytes r =
    length r.id
    + length r.workspace_id
    + length r.session_id
    + length r.source
    + length r.content
    + length r.node_id
    + length r.tier
    + length r.dedup_key
    + length r.shard_id
    + length r.replica_role
    + length r.shard_hint
    + sum_lengths r.tags
    + sum_pairs r.metadata
    + 320

-- `HybridRetriever::EstimateDocBytes`; a `float` has four bytes.
unfoldable pub estimate_doc_bytes : ℕ → MemoryRecord → ℕ
estimate_doc_bytes embedding_dim r =
    if r.tombstone
    then 0
    else (let tokens = tokenize r.content in
        let terms = unique_terms tokens in
        estimate_record_bytes r
        + length tokens * 8
        + length terms * 48
        + sum_lengths terms
        + embedding_dim * 4
        + 128)

unfoldable pub docs_bytes : ℕ → Map IndexedDoc → ℕ
docs_bytes embedding_dim [] = 0
docs_bytes embedding_dim ((id, doc) ∷ docs) =
    estimate_doc_bytes embedding_dim doc.memory + docs_bytes embedding_dim docs

unfoldable pub snapshots_bytes : ℕ → Text → Map WorkspaceSnapshot → ℕ
snapshots_bytes embedding_dim workspace_id [] = 0
snapshots_bytes embedding_dim workspace_id ((ws, snapshot) ∷ snapshots) =
    let rest = snapshots_bytes embedding_dim workspace_id snapshots in
    if not (is_empty workspace_id) && not (text_eq ws workspace_id)
    then rest
    else docs_bytes embedding_dim snapshot.docs + rest

-- `HybridRetriever::EstimatedBytes`
unfoldable pub estimated_bytes : HybridRetriever → Text → ℕ
estimated_bytes s workspace_id =
    vector_bytes workspace_id s.vector_index
    + snapshots_bytes s.embedding_dim workspace_id s.snapshots

module _ (hash : Text → ℕ) (fpu float : Fpu) (widen : Double → Double) where
  unfoldable pub indexed_doc : ℕ → MemoryRecord → IndexedDoc
  indexed_doc embedding_dim r =
      let tokens = tokenize r.content in
      record {
        memory = r;
        tf = term_frequencies [] tokens;
        doc_len = length tokens;
        embedding = embed hash float r.content embedding_dim;
      }

  -- The rest of `Index`, for a record that is no tombstone.
  unfoldable pub add_document : HybridRetriever → MemoryRecord → HybridRetriever
  add_document s r =
      let doc = indexed_doc s.embedding_dim r in
      record s {
        snapshots =
            insert r.workspace_id (put_doc r.id doc (snapshot_of r.workspace_id s.snapshots))
              s.snapshots;
        vector_index =
            upsert_vector hash fpu float widen s.vector_index r.workspace_id r.id doc.embedding;
      }

  -- `HybridRetriever::Index`
  unfoldable pub index : HybridRetriever → MemoryRecord → HybridRetriever
  index s r = if r.tombstone then remove s r.workspace_id r.id else add_document s r
