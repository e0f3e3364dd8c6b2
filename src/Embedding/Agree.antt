-- ===== src/Embedding/Agree.antt =====
-- src/core/hash_embedding_provider.cpp and the functions on vectors of src/core/memory_engine.cpp:
-- the two ways to an embedding, and the signature of a vector.
use poorguy_mem.Common.{
  if◌then◌else◌, ℕ, suc, ◌%◌, ◌≡◌, refl, ap, ◌∙◌, List, [], ◌∷◌, map, Text, ◌==◌, length,
  length-set, length-replicate, is_empty, get_elem?, replicate, arith, Option-cases, Bool-cases,
  inl, inr, Double, Fpu,
}
use poorguy_mem.Tokens.{tokenize}
use poorguy_mem.Embedding.{
  embed, build_embedding, accumulate, bump, scale_down, squared_norm, count_tokens, sum_squares,
  divide_by,
}

module _ (hash : Text → ℕ) (float : Fpu) where
  length-bump : (emb : List Double) (i : ℕ) → length (bump hash float emb i) ≡ length emb
  unfolding bump
  length-bump emb i = elim (Option-cases (get_elem? emb i)) [
    | inl e ↦ rw (bump, e) refl
    | inr (v, e) ↦ rw (bump, e) (length-set emb i _)
  ]

  length-accumulate :
      (tokens : List Text) (emb : List Double) (dim : ℕ)
      → length (accumulate hash float emb dim tokens) ≡ length emb
  unfolding accumulate
  length-accumulate [] emb dim = refl
  length-accumulate (t ∷ ts) emb dim =
      length-accumulate ts (bump hash float emb (hash t % dim)) dim ∙ length-bump emb (hash t % dim)

  length-map : (f : Double → Double) (xs : List Double) → length (map f xs) ≡ length xs
  length-map f [] = refl
  length-map f (x ∷ xs) = ap suc (length-map f xs)

  length-scale_down : (emb : List Double) → length (scale_down hash float emb) ≡ length emb
  unfolding scale_down
  length-scale_down emb =
      elim (Bool-cases
        (float.lt float.epsilon (float.sqrt (squared_norm hash float (float.literal 0 0) emb)))) [
          | inl e ↦ rw (scale_down, e) (length-map _ emb)
          | inr e ↦ rw (scale_down, e) refl
        ]

  count_tokens-accumulate :
      (tokens : List Text) (emb : List Double) (dim : ℕ)
      → count_tokens hash float emb dim tokens ≡ accumulate hash float emb dim tokens
  unfolding count_tokens accumulate bump
  count_tokens-accumulate [] emb dim = refl
  count_tokens-accumulate (t ∷ ts) emb dim =
      count_tokens-accumulate ts (bump hash float emb (hash t % dim)) dim

  sum_squares-squared_norm :
      (emb : List Double) (norm : Double)
      → sum_squares hash float norm emb ≡ squared_norm hash float norm emb
  unfolding sum_squares squared_norm
  sum_squares-squared_norm [] norm = refl
  sum_squares-squared_norm (v ∷ emb) norm =
      sum_squares-squared_norm emb (float.add norm (float.mul v v))

  divide_by-map :
      (norm : Double) (emb : List Double)
      → divide_by hash float norm emb ≡ map (λ v. float.div v norm) emb
  unfolding divide_by
  divide_by-map norm [] = refl
  divide_by-map norm (v ∷ emb) = ap (λ vs. float.div v norm ∷ vs) (divide_by-map norm emb)

  -- The end of the engine's function is that of the provider's.
  normalized :
      (tokens : List Text) (emb : List Double) (dim : ℕ)
      → (let counted = count_tokens hash float emb dim tokens in
          let norm = float.sqrt (sum_squares hash float (float.literal 0 0) counted) in
          if float.lt float.epsilon norm then divide_by hash float norm counted else counted)
        ≡ scale_down hash float (accumulate hash float emb dim tokens)
  unfolding scale_down
  normalized tokens emb dim =
      rw
        (
          count_tokens-accumulate tokens emb dim,
          sum_squares-squared_norm (accumulate hash float emb dim tokens) (float.literal 0 0),
          divide_by-map,
          scale_down,
        )
        refl

  -- The engine and the embedding provider build the same vector of any text, and it has as many
  -- coordinates as asked.
  pub build_embedding-embed :
      (input : Text) (dim : ℕ)
      → (build_embedding hash float input dim ≡ embed hash float input dim)
        × (length (embed hash float input dim) ≡ dim)
  unfolding build_embedding embed
  build_embedding-embed input dim = elim (Bool-cases (is_empty (tokenize input))) [
    | inl blank ↦ elim (Bool-cases (dim == 0)) [
      | inl none_asked ↦
          let e : dim ≡ 0 = ground (arith, none_asked) in
          rw (blank, e, build_embedding, embed) (refl, refl)
      | inr some_asked ↦
          rw (blank, some_asked, build_embedding, embed) (refl, length-replicate dim _)
    ]
    | inr words ↦ elim (Bool-cases (dim == 0)) [
      | inl none_asked ↦
          let e : dim ≡ 0 = ground (arith, none_asked) in
          rw (words, e, build_embedding, embed) (refl, refl)
      | inr some_asked ↦
          rw (words, some_asked, build_embedding, embed)
            (
              normalized (tokenize input) (replicate dim (float.literal 0 0)) dim,
              length-scale_down _
                  ∙ (length-accumulate (tokenize input) (replicate dim (float.literal 0 0)) dim
                      ∙ length-replicate dim _),
            )
    ]
  ]
