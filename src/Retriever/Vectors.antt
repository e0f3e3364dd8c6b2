-- ===== src/Retriever/Vectors.antt =====
-- `LshVectorIndex` of src/core/lsh_vector_index.cpp (include/pgmem/core/vector_index.h): the vectors
-- of each workspace, and the search by cosine. Each operation holds the one lock, so it is one step.
use poorguy_mem.Common.{
  ℕ, ◌+◌, ◌*◌, Bool, ◌&&◌, ◌||◌, not, none, some, List, [], ◌∷◌, Text, text_eq, text_lt,
  if◌then◌else◌, ltb, ◌==◌, Map, find, insert, erase, length, is_empty, take, insert_by, Double,
  Fpu,
}
use poorguy_mem.Embedding.{encode_vector_bucket_signature}

-- `VectorSearchRequest`
pub record VectorSearchRequest : Type 0 where
  pub workspace_id : Text
  pub query : List Double
  pub top_k : ℕ

-- `VectorSearchResult`
pub record VectorSearchResult : Type 0 where
  pub memory_id : Text
  pub score : Double

-- `Entry`
pub record VectorEntry : Type 0 where
  pub vector : List Double
  pub bucket : ℕ

abbrev pub WorkspaceVectors : Type 0
WorkspaceVectors = Map (Map VectorEntry)

-- `workspace_vectors_[workspace_id]`, empty where there is none yet
abbrev pub vectors_of : Text → WorkspaceVectors → Map VectorEntry
vectors_of workspace_id vectors = elim (find workspace_id vectors) [
  | none ↦ []
  | some entries ↦ entries
]

unfoldable pub remove_vector : WorkspaceVectors → Text → Text → WorkspaceVectors
remove_vector vectors workspace_id memory_id = elim (find workspace_id vectors) [
  | none ↦ vectors
  | some entries ↦
      let rest = erase memory_id entries in
      if is_empty rest then erase workspace_id vectors else insert workspace_id rest vectors
]

-- The bytes that one entry counts for.
abbrev entry_bytes : Text → VectorEntry → ℕ
entry_bytes memory_id entry = length memory_id + length entry.vector * 4 + (8 + 64)

unfoldable pub sum_vector_bytes : Map VectorEntry → ℕ
sum_vector_bytes [] = 0
sum_vector_bytes ((memory_id, entry) ∷ entries) =
    entry_bytes memory_id entry + sum_vector_bytes entries

-- No workspace means all.
unfoldable pub vector_bytes : Text → WorkspaceVectors → ℕ
vector_bytes workspace_id [] = 0
vector_bytes workspace_id ((ws, entries) ∷ vectors) =
    let rest = vector_bytes workspace_id vectors in
    if not (is_empty workspace_id) && not (text_eq ws workspace_id)
    then rest
    else sum_vector_bytes entries + rest

-- `widen` is the conversion of a `float` to a `double`.
module _ (hash : Text → ℕ) (fpu float : Fpu) (widen : Double → Double) where
  abbrev pub bucket_for_vector : List Double → ℕ
  bucket_for_vector vector = encode_vector_bucket_signature hash float vector

  unfoldable pub upsert_vector : WorkspaceVectors → Text → Text → List Double → WorkspaceVectors
  upsert_vector vectors workspace_id memory_id vector =
      insert workspace_id
        (insert memory_id (record { vector = vector; bucket = bucket_for_vector vector })
          (vectors_of workspace_id vectors))
        vectors

  unfoldable pub dot : Double → List Double → List Double → Double
  dot acc [] b = acc
  dot acc (x ∷ a) [] = acc
  dot acc (x ∷ a) (y ∷ b) = dot (fpu.add acc (fpu.mul (widen x) (widen y))) a b

  unfoldable pub cosine : List Double → List Double → Double
  cosine a b =
      if not (length a == length b) || is_empty a
      then fpu.literal 0 0
      else dot (fpu.literal 0 0) a b

  unfoldable pub score_entries : List Double → ℕ → Map VectorEntry → List VectorSearchResult
  score_entries query query_bucket [] = []
  score_entries query query_bucket ((memory_id, entry) ∷ entries) =
      let score = cosine query entry.vector in
      record {
        memory_id = memory_id;
        score = if entry.bucket == query_bucket then fpu.add score (fpu.literal 5 2) else score;
      }
      ∷ score_entries query query_bucket entries

  -- The comparator: the highest score first, and among equal scores the smaller id.
  unfoldable pub result_before : VectorSearchResult → VectorSearchResult → Bool
  result_before lhs rhs =
      if fpu.eq lhs.score rhs.score
      then text_lt lhs.memory_id rhs.memory_id
      else fpu.lt rhs.score lhs.score

  unfoldable pub sort_results : List VectorSearchResult → List VectorSearchResult
  sort_results [] = []
  sort_results (r ∷ rs) = insert_by result_before r (sort_results rs)

  unfoldable pub search_vectors : WorkspaceVectors → VectorSearchRequest → List VectorSearchResult
  search_vectors vectors input = elim (find input.workspace_id vectors) [
    | none ↦ []
    | some entries ↦
        if is_empty input.query
        then []
        else (let out =
              sort_results (score_entries input.query (bucket_for_vector input.query) entries) in
            if ltb 0 input.top_k && ltb input.top_k (length out) then take input.top_k out else out)
  ]
