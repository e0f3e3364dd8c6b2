-- ===== src/Retriever/Docs.antt =====
-- The index of src/core/retriever.cpp and src/core/lsh_vector_index.cpp as an abstract map: which
-- document and which vector stand under a workspace and an id.
use poorguy_mem.Common.{
  ℕ, ◌≡◌, refl, sym, ap, ◌∙◌, Bool, true, false, ◌&&◌, Option, none, some, List, [], ◌∷◌, Text,
  text_eq, if◌then◌else◌, Map, find, erase, find-insert, find-erase, is_empty, Option-cases,
  Bool-cases, inl, inr, Double, Fpu, written, nested, nested-insert, nested-erase, nested-same,
}
use poorguy_mem.Types.{MemoryRecord}
use poorguy_mem.Retriever.Vectors.{
  VectorEntry, WorkspaceVectors, vectors_of, upsert_vector, remove_vector, bucket_for_vector,
}
use poorguy_mem.Retriever.Index.{
  IndexedDoc, WorkspaceSnapshot, HybridRetriever, snapshot_of, put_doc, remove_doc, remove_from,
  remove, index, add_document, indexed_doc,
}

abbrev pub doc_at : HybridRetriever → Text → Text → Option IndexedDoc
doc_at s = nested (λ (snapshot : WorkspaceSnapshot). snapshot.docs) s.snapshots

abbrev pub vector_at : HybridRetriever → Text → Text → Option VectorEntry
vector_at s = nested (λ (entries : Map VectorEntry). entries) s.vector_index

-- An empty map holds nothing.
find_empty {ℓ} : {V : Type ℓ} (k : Text) (m : Map V) → is_empty m ≡ true → find k m ≡ none
unfolding find
find_empty k [] e = refl
find_empty k (x ∷ m) e = cc

docs_of_snapshot :
    (ws id : Text) (snapshots : Map WorkspaceSnapshot)
    → find id (snapshot_of ws snapshots).docs
      ≡ nested (λ (snapshot : WorkspaceSnapshot). snapshot.docs) snapshots ws id
unfolding find
docs_of_snapshot ws id snapshots = elim (Option-cases (find ws snapshots)) [
  | inl e ↦ rw (snapshot_of, nested, e) refl
  | inr (sn, e) ↦ rw (snapshot_of, nested, e) refl
]

vectors_of_entries :
    (ws id : Text) (vectors : WorkspaceVectors)
    → find id (vectors_of ws vectors)
      ≡ nested (λ (entries : Map VectorEntry). entries) vectors ws id
unfolding find
vectors_of_entries ws id vectors = elim (Option-cases (find ws vectors)) [
  | inl e ↦ rw (vectors_of, nested, e) refl
  | inr (sn, e) ↦ rw (vectors_of, nested, e) refl
]

remove_from-nested :
    (snapshots : Map WorkspaceSnapshot) (ws id ws' id' : Text)
    → nested (λ (snapshot : WorkspaceSnapshot). snapshot.docs) (remove_from snapshots ws id) ws' id'
      ≡ written ws id ws' id' none
          (nested (λ (snapshot : WorkspaceSnapshot). snapshot.docs) snapshots ws' id')
unfolding remove_from remove_doc
remove_from-nested snapshots ws id ws' id' = elim (Option-cases (find ws snapshots)) [
  | inl e ↦ rw (remove_from, e) (nested-same docs ws id snapshots (rw (nested, e) refl) ws' id')
  | inr (sn, e) ↦ elim (Option-cases (find id sn.docs)) [
    | inl f ↦ rw (remove_from, e, f) (nested-same docs ws id snapshots (rw (nested, e) f) ws' id')
    | inr (doc, f) ↦ elim (Bool-cases (is_empty (erase id sn.docs))) [
      | inl last ↦
          rw (remove_from, e, f, last)
            (nested-erase docs ws id snapshots
              (λ j.
                rw (nested, e)
                  (sym (find-erase id j sn.docs) ∙ find_empty j (erase id sn.docs) last))
              ws' id')
      | inr more ↦
          rw (remove_from, e, f, more)
            (nested-insert docs ws id (remove_doc id doc sn) none snapshots
              (λ j. rw (nested, e) (find-erase id j sn.docs)) ws' id')
    ]
  ]
]
  where
    docs : WorkspaceSnapshot → Map IndexedDoc
    docs snapshot = snapshot.docs

remove_vector-nested :
    (vectors : WorkspaceVectors) (ws id ws' id' : Text)
    → nested (λ (entries : Map VectorEntry). entries) (remove_vector vectors ws id) ws' id'
      ≡ written ws id ws' id' none (nested (λ (entries : Map VectorEntry). entries) vectors ws' id')
unfolding remove_vector
remove_vector-nested vectors ws id ws' id' = elim (Option-cases (find ws vectors)) [
  | inl e ↦ rw (remove_vector, e) (nested-same entries ws id vectors (rw (nested, e) refl) ws' id')
  | inr (old, e) ↦ elim (Bool-cases (is_empty (erase id old))) [
    | inl last ↦
        rw (remove_vector, e, last)
          (nested-erase entries ws id vectors
            (λ j. rw (nested, e) (sym (find-erase id j old) ∙ find_empty j (erase id old) last)) ws'
            id')
    | inr more ↦
        rw (remove_vector, e, more)
          (nested-insert entries ws id (erase id old) none vectors
            (λ j. rw (nested, e) (find-erase id j old)) ws' id')
  ]
]
  where
    entries : Map VectorEntry → Map VectorEntry
    entries m = m

-- What the engine asks of the retriever.
pub data Change : Type 0 where
  index_record : MemoryRecord → Change
  remove_record : (workspace_id memory_id : Text) → Change

-- The record that stands under each workspace and id.
abbrev pub Catalog : Type 0
Catalog = Text → Text → Option MemoryRecord

abbrev pub change_catalog : Catalog → Change → Catalog
change_catalog c (index_record r) ws id =
    written r.workspace_id r.id ws id (if r.tombstone then none else some r) (c ws id)
change_catalog c (remove_record ws' id') ws id = written ws' id' ws id none (c ws id)

abbrev pub change_catalogs : Catalog → List Change → Catalog
change_catalogs c [] = c
change_catalogs c (x ∷ xs) = change_catalogs (change_catalog c x) xs

module _ (hash : Text → ℕ) (fpu float : Fpu) (widen : Double → Double) where
  unfoldable pub change : HybridRetriever → Change → HybridRetriever
  change s (index_record r) = index hash fpu float widen s r
  change s (remove_record ws id) = remove s ws id

  unfoldable pub changes : HybridRetriever → List Change → HybridRetriever
  changes s [] = s
  changes s (x ∷ xs) = changes (change s x) xs

  abbrev pub doc_of : ℕ → Option MemoryRecord → Option IndexedDoc
  doc_of dim none = none
  doc_of dim (some r) = some (indexed_doc hash fpu float widen dim r)

  abbrev pub vector_of : ℕ → Option MemoryRecord → Option VectorEntry
  vector_of dim none = none
  vector_of dim (some r) =
      let v = (indexed_doc hash fpu float widen dim r).embedding in
      some (record { vector = v; bucket = bucket_for_vector hash fpu float widen v })

  -- The documents and the vectors are those of the records of the catalog, and no others.
  pub record Describes (dim : ℕ) (s : HybridRetriever) (c : Catalog) : Type 0 where
    pub dim_is : s.embedding_dim ≡ dim
    pub docs_are : (ws id : Text) → doc_at s ws id ≡ doc_of dim (c ws id)
    pub vectors_are : (ws id : Text) → vector_at s ws id ≡ vector_of dim (c ws id)

  doc_of-written :
      (dim : ℕ) (ws id ws' id' : Text) (new old : Option MemoryRecord)
      → doc_of dim (written ws id ws' id' new old)
        ≡ written ws id ws' id' (doc_of dim new) (doc_of dim old)
  doc_of-written dim ws id ws' id' new old = elim (Bool-cases (text_eq ws ws' && text_eq id id')) [
    | inl e ↦ rw (written, e) refl
    | inr e ↦ rw (written, e) refl
  ]

  vector_of-written :
      (dim : ℕ) (ws id ws' id' : Text) (new old : Option MemoryRecord)
      → vector_of dim (written ws id ws' id' new old)
        ≡ written ws id ws' id' (vector_of dim new) (vector_of dim old)
  vector_of-written dim ws id ws' id' new old =
      elim (Bool-cases (text_eq ws ws' && text_eq id id')) [
        | inl e ↦ rw (written, e) refl
        | inr e ↦ rw (written, e) refl
      ]

  remove-Describes :
      (dim : ℕ) (s : HybridRetriever) (c : Catalog) (ws id : Text)
      → Describes dim s c
      → Describes dim (remove s ws id) (change_catalog c (remove_record ws id))
  unfolding remove
  remove-Describes dim s c ws id d = record {
    dim_is = d.dim_is;
    docs_are = λ ws' id'.
        rw (doc_of-written, ← d.docs_are ws' id') (remove_from-nested s.snapshots ws id ws' id');
    vectors_are = λ ws' id'.
        rw (vector_of-written, ← d.vectors_are ws' id')
          (remove_vector-nested s.vector_index ws id ws' id');
  }

  add_document-Describes :
      (dim : ℕ) (s : HybridRetriever) (c : Catalog) (r : MemoryRecord)
      → Describes dim s c
      → Describes dim
          (add_document hash fpu float widen s r)
          (λ ws id. written r.workspace_id r.id ws id (some r) (c ws id))
  unfolding add_document put_doc upsert_vector
  add_document-Describes dim s c r d = record {
    dim_is = d.dim_is;
    docs_are = λ ws id.
        rw (doc_of-written, ← d.docs_are ws id, ← d.dim_is)
          (nested-insert (λ (snapshot : WorkspaceSnapshot). snapshot.docs) r.workspace_id r.id _
            (some doc) s.snapshots
            (λ j.
              find-insert r.id j doc _
              ∙ ap (λ o. if text_eq r.id j then some doc else o)
                  (docs_of_snapshot r.workspace_id j s.snapshots))
            ws id);
    vectors_are = λ ws id.
        rw (vector_of-written, ← d.vectors_are ws id, ← d.dim_is)
          (nested-insert (λ (entries : Map VectorEntry). entries) r.workspace_id r.id _ (some entry)
            s.vector_index
            (λ j.
              find-insert r.id j entry _
              ∙ ap (λ o. if text_eq r.id j then some entry else o)
                  (vectors_of_entries r.workspace_id j s.vector_index))
            ws id);
  }
    where
      doc : IndexedDoc
      doc = indexed_doc hash fpu float widen s.embedding_dim r

      entry : VectorEntry
      entry = record {
        vector = doc.embedding;
        bucket = bucket_for_vector hash fpu float widen doc.embedding;
      }

  Describes-if :
      (dim : ℕ) (b : Bool) (s s' : HybridRetriever) (c : Catalog) (ws id : Text) (r : MemoryRecord)
      → Describes dim s (λ ws' id'. written ws id ws' id' none (c ws' id'))
      → Describes dim s' (λ ws' id'. written ws id ws' id' (some r) (c ws' id'))
      → Describes dim
          (if b then s else s')
          (λ ws' id'. written ws id ws' id' (if b then none else some r) (c ws' id'))
  Describes-if dim true s s' c ws id r h h' = h
  Describes-if dim false s s' c ws id r h h' = h'

  change-Describes :
      (dim : ℕ) (s : HybridRetriever) (c : Catalog) (x : Change)
      → Describes dim s c
      → Describes dim (change s x) (change_catalog c x)
  unfolding change index
  change-Describes dim s c (index_record r) d =
      Describes-if dim r.tombstone _ _ c r.workspace_id r.id r
        (remove-Describes dim s c r.workspace_id r.id d) (add_document-Describes dim s c r d)
  change-Describes dim s c (remove_record ws id) d = remove-Describes dim s c ws id d

  -- A retriever whose documents and vectors are those of a catalog of records, and no others, is
  -- after any sequence of `Index` and `Remove` that of the catalog changed in the same way: an
  -- indexed record stands under its workspace and id, a tombstone or a removal clears the place, and
  -- every other place is as before.
  pub changes-Describes :
      (dim : ℕ) (xs : List Change) (s : HybridRetriever) (c : Catalog)
      → Describes dim s c
      → Describes dim (changes s xs) (change_catalogs c xs)
  unfolding changes
  changes-Describes dim [] s c d = d
  changes-Describes dim (x ∷ xs) s c d =
      changes-Describes dim xs (change s x) (change_catalog c x) (change-Describes dim s c x d)
