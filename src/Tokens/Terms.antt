-- ===== src/Tokens/Terms.antt =====
-- The sets and the counts of tokens that src/core/memory_engine.cpp and src/core/retriever.cpp build.
use poorguy_mem.Common.{
  ℕ, ◌+◌, Bool, true, false, none, some, List, [], ◌∷◌, Text, text_eq, if◌then◌else◌, Map, find,
  insert,
}

-- The tokens, each once: an `unordered_set`.
unfoldable pub contains : Text → List Text → Bool
contains t [] = false
contains t (u ∷ us) = if text_eq u t then true else contains t us

unfoldable pub unique_terms : List Text → List Text
unique_terms [] = []
unique_terms (t ∷ ts) = let rest = unique_terms ts in if contains t ts then rest else t ∷ rest

-- ++tf[token]
unfoldable pub count_token : Text → Map ℕ → Map ℕ
count_token token tf = insert token (elim (find token tf) [ none ↦ 1 | some n ↦ n + 1 ]) tf

unfoldable pub term_frequencies : Map ℕ → List Text → Map ℕ
term_frequencies tf [] = tf
term_frequencies tf (token ∷ tokens) = term_frequencies (count_token token tf) tokens
