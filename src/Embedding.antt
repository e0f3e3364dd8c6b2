-- ===== src/Embedding.antt =====
-- src/core/hash_embedding_provider.cpp, and `BuildEmbedding`, `EncodeVectorCsv` and
-- `EncodeVectorBucketSignature` of src/core/memory_engine.cpp. The hash of the standard library and
-- the `float` operations are parameters.
pub mod Agree
use poorguy_mem.Common.{
  ℕ, zero, suc, ◌+◌, ◌%◌, ◌^◌, Bool, ◌||◌, Option, none, some, List, [], ◌∷◌, ◌++◌, map, Text, text,
  if◌then◌else◌, ◌==◌, leb, length, is_empty, get_elem?, set, replicate, Double, Fpu,
}
use poorguy_mem.Tokens.{tokenize}

module _ (hash : Text → ℕ) (float : Fpu) where
  abbrev one_f : Double
  one_f = float.literal 1 0

  abbrev zero_f : Double
  zero_f = float.literal 0 0

  -- emb[index] += 1.0f
  unfoldable pub bump : List Double → ℕ → List Double
  bump emb i = elim (get_elem? emb i) [ none ↦ emb | some v ↦ set emb i (float.add v one_f) ]

  unfoldable pub accumulate : List Double → ℕ → List Text → List Double
  accumulate emb dim [] = emb
  accumulate emb dim (token ∷ tokens) = accumulate (bump emb (hash token % dim)) dim tokens

  unfoldable pub squared_norm : Double → List Double → Double
  squared_norm norm [] = norm
  squared_norm norm (v ∷ emb) = squared_norm (float.add norm (float.mul v v)) emb

  unfoldable pub scale_down : List Double → List Double
  scale_down emb =
      let norm = float.sqrt (squared_norm zero_f emb) in
      if float.lt float.epsilon norm then map (λ v. float.div v norm) emb else emb

  -- `HashEmbeddingProvider::Embed`
  unfoldable pub embed : Text → ℕ → List Double
  embed input dim =
      if dim == 0
      then []
      else (let emb = replicate dim zero_f in
          let tokens = tokenize input in
          if is_empty tokens then emb else scale_down (accumulate emb dim tokens))

  -- The loops of `BuildEmbedding` in the engine: over the tokens, and over the coordinates for the
  -- norm and for the division.
  unfoldable pub count_tokens : List Double → ℕ → List Text → List Double
  count_tokens emb dim [] = emb
  count_tokens emb dim (token ∷ tokens) =
      let index = hash token % dim in
      count_tokens
        (elim (get_elem? emb index) [ none ↦ emb | some v ↦ set emb index (float.add v one_f) ]) dim
        tokens

  unfoldable pub sum_squares : Double → List Double → Double
  sum_squares norm [] = norm
  sum_squares norm (v ∷ emb) = sum_squares (float.add norm (float.mul v v)) emb

  unfoldable pub divide_by : Double → List Double → List Double
  divide_by norm [] = []
  divide_by norm (v ∷ emb) = float.div v norm ∷ divide_by norm emb

  -- `BuildEmbedding` of the engine
  unfoldable pub build_embedding : Text → ℕ → List Double
  build_embedding input dim =
      let emb = replicate dim zero_f in
      let tokens = tokenize input in
      if is_empty tokens || dim == 0
      then emb
      else (let counted = count_tokens emb dim tokens in
          let norm = float.sqrt (sum_squares zero_f counted) in
          if float.lt float.epsilon norm then divide_by norm counted else counted)

  -- The loop over the first 64 coordinates. Bit `i` is still clear when `1 << i` is or-ed in, so
  -- the disjunction is a sum.
  unfoldable pub bucket_from : ℕ → ℕ → ℕ → List Double → ℕ
  bucket_from zero i bucket vec = bucket
  bucket_from (suc left) i bucket [] = bucket
  bucket_from (suc left) i bucket (v ∷ vec) =
      bucket_from left (i + 1) (if float.lt zero_f v then bucket + 2 ^ i else bucket) vec

  -- `EncodeVectorBucketSignature`
  unfoldable pub encode_vector_bucket_signature : List Double → ℕ
  encode_vector_bucket_signature vec = bucket_from 64 0 0 vec

  unfoldable pub encode_vector_csv : List Double → Text
  encode_vector_csv [] = []
  encode_vector_csv (v ∷ []) = float.print v
  encode_vector_csv (v ∷ (w ∷ vec)) = float.print v ++ (text "," ++ encode_vector_csv (w ∷ vec))
