-- ===== src/Retriever/Counted.antt =====
-- The snapshots of src/core/retriever.cpp: the total length, the document frequencies and the keys of
-- the documents through `Index` and `Remove`.
use poorguy_mem.Common.{
  ℕ, ◌+◌, ◌≡◌, refl, sym, ap, ◌∙◌, true, false, some, List, [], ◌∷◌, Text, if◌then◌else◌, Map, find,
  insert, erase, is_empty, arith, Option-cases, Bool-cases, ◌⊎◌, inl, inr, Double, Fpu, IsUnique,
  insert-IsUnique, erase-IsUnique, total, at_key, total-insert, total-erase, All, All-insert,
  All-erase, All-find, length,
}
use mathlib.Core.Path.{subst}
use poorguy_mem.Types.{MemoryRecord}
use poorguy_mem.Tokens.{tokenize}
use poorguy_mem.Retriever.Index.{
  IndexedDoc, WorkspaceSnapshot, HybridRetriever, snapshot_of, put_doc, remove_doc, drop_length,
  remove_from, remove, index, add_document, indexed_doc, build_document_frequency,
  document_frequency_from,
}
use poorguy_mem.Retriever.Docs.{Change, index_record, remove_record, change, changes}

abbrev doc_length : Text → IndexedDoc → ℕ
doc_length id doc = doc.doc_len

-- A document under its own id and workspace, of the tokens of its content.
abbrev pub IsDoc : Text → Text × IndexedDoc → Type 0
IsDoc ws x =
    (x.1.memory.id ≡ x.0)
    × (x.1.memory.workspace_id ≡ ws)
    × (x.1.memory.tombstone ≡ false)
    × (x.1.doc_len ≡ length (tokenize x.1.memory.content))

-- A snapshot whose numbers are those of its documents.
pub record IsCounted (ws : Text) (sn : WorkspaceSnapshot) : Type 0 where
  pub docs_unique : IsUnique sn.docs
  pub docs_valid : All (IsDoc ws) sn.docs
  pub total_is : sn.total_doc_len ≡ total doc_length sn.docs
  pub df_is : sn.df ≡ build_document_frequency sn.docs

pub record IsIndexed (snapshots : Map WorkspaceSnapshot) : Type 0 where
  pub workspaces_unique : IsUnique snapshots
  pub counted : All (λ (x : Text × WorkspaceSnapshot). IsCounted x.0 x.1) snapshots
  pub not_empty : All (λ (x : Text × WorkspaceSnapshot). is_empty x.1.docs ≡ false) snapshots

-- The guard of the subtraction holds: what is taken off is a part of the total.
drop_length_lem :
    (id : Text) (docs : Map IndexedDoc) (rest whole : ℕ)
    → rest + at_key doc_length id (find id docs) ≡ whole
    → drop_length (find id docs) whole ≡ rest
unfolding drop_length
drop_length_lem id docs rest whole h = elim (Option-cases (find id docs)) [
  | inl e ↦ rw (drop_length, e) (ground (arith, rw e at h))
  | inr (doc, e) ↦ rw (drop_length, e) (ground (arith, rw e at h))
]

put_doc-IsCounted :
    (ws id : Text) (doc : IndexedDoc) (sn : WorkspaceSnapshot)
    → IsDoc ws (id, doc)
    → IsCounted ws sn
    → IsCounted ws (put_doc id doc sn)
unfolding put_doc
put_doc-IsCounted ws id doc sn v c = record {
  docs_unique = insert-IsUnique id doc sn.docs c.docs_unique;
  docs_valid = All-insert (IsDoc ws) id doc sn.docs v c.docs_valid;
  total_is =
      let e = total-erase doc_length id sn.docs c.docs_unique in
      omega (
        arith,
        e,
        total-insert doc_length id doc sn.docs,
        drop_length_lem id sn.docs (total doc_length (erase id sn.docs)) sn.total_doc_len
            (e ∙ sym c.total_is),
      );
  df_is = refl;
}

remove_doc-IsCounted :
    (ws id : Text) (doc : IndexedDoc) (sn : WorkspaceSnapshot)
    → find id sn.docs ≡ some doc
    → IsCounted ws sn
    → IsCounted ws (remove_doc id doc sn)
unfolding remove_doc
remove_doc-IsCounted ws id doc sn there c = record {
  docs_unique = erase-IsUnique id sn.docs c.docs_unique;
  docs_valid = All-erase (IsDoc ws) id sn.docs c.docs_valid;
  total_is =
      ap (λ o. drop_length o sn.total_doc_len) (sym there)
      ∙ drop_length_lem id sn.docs (total doc_length (erase id sn.docs)) sn.total_doc_len
          (total-erase doc_length id sn.docs c.docs_unique ∙ sym c.total_is);
  df_is = refl;
}

pub snapshot_of-IsCounted :
    (ws : Text) (snapshots : Map WorkspaceSnapshot)
    → IsIndexed snapshots
    → IsCounted ws (snapshot_of ws snapshots)
unfolding build_document_frequency document_frequency_from
snapshot_of-IsCounted ws snapshots a = elim (Option-cases (find ws snapshots)) [
  | inl e ↦
      rw (snapshot_of, e)
        (record { docs_unique = tt; docs_valid = tt; total_is = refl; df_is = refl })
  | inr (sn, e) ↦
      rw (snapshot_of, e)
        (All-find (λ (x : Text × WorkspaceSnapshot). IsCounted x.0 x.1) ws sn snapshots e a.counted)
]

insert-not_empty {ℓ} : {V : Type ℓ} (k : Text) (v : V) (m : Map V) → is_empty (insert k v m) ≡ false
unfolding insert
insert-not_empty k v [] = refl
insert-not_empty k v ((j, w) ∷ m) = ground arith

put-IsIndexed :
    (ws : Text) (sn : WorkspaceSnapshot) (snapshots : Map WorkspaceSnapshot)
    → IsCounted ws sn
    → is_empty sn.docs ≡ false
    → IsIndexed snapshots
    → IsIndexed (insert ws sn snapshots)
put-IsIndexed ws sn snapshots c n a = record {
  workspaces_unique = insert-IsUnique ws sn snapshots a.workspaces_unique;
  counted =
      All-insert (λ (x : Text × WorkspaceSnapshot). IsCounted x.0 x.1) ws sn snapshots c a.counted;
  not_empty =
      All-insert (λ (x : Text × WorkspaceSnapshot). is_empty x.1.docs ≡ false) ws sn snapshots n
        a.not_empty;
}

erase-IsIndexed :
    (ws : Text) (snapshots : Map WorkspaceSnapshot)
    → IsIndexed snapshots
    → IsIndexed (erase ws snapshots)
erase-IsIndexed ws snapshots a = record {
  workspaces_unique = erase-IsUnique ws snapshots a.workspaces_unique;
  counted = All-erase (λ (x : Text × WorkspaceSnapshot). IsCounted x.0 x.1) ws snapshots a.counted;
  not_empty =
      All-erase (λ (x : Text × WorkspaceSnapshot). is_empty x.1.docs ≡ false) ws snapshots
        a.not_empty;
}

pub remove_from-IsIndexed :
    (snapshots : Map WorkspaceSnapshot) (ws id : Text)
    → IsIndexed snapshots
    → IsIndexed (remove_from snapshots ws id)
unfolding remove_from remove_doc
remove_from-IsIndexed snapshots ws id a = elim (Option-cases (find ws snapshots)) [
  | inl e ↦ rw (remove_from, e) a
  | inr (sn, e) ↦ elim (Option-cases (find id sn.docs)) [
    | inl f ↦ rw (remove_from, e, f) a
    | inr (doc, f) ↦ elim (Bool-cases (is_empty (erase id sn.docs))) [
      | inl last ↦ rw (remove_from, e, f, last) (erase-IsIndexed ws snapshots a)
      | inr more ↦
          rw (remove_from, e, f, more)
            (put-IsIndexed ws (remove_doc id doc sn) snapshots
              (remove_doc-IsCounted ws id doc sn f (
                All-find (λ (x : Text × WorkspaceSnapshot). IsCounted x.0 x.1) ws sn snapshots e
                  a.counted))
              more a)
    ]
  ]
]

module _ (hash : Text → ℕ) (fpu float : Fpu) (widen : Double → Double) where
  add_document-IsIndexed :
      (s : HybridRetriever) (r : MemoryRecord)
      → r.tombstone ≡ false
      → IsIndexed s.snapshots
      → IsIndexed (add_document hash fpu float widen s r).snapshots
  unfolding add_document indexed_doc put_doc
  add_document-IsIndexed s r live a =
      put-IsIndexed r.workspace_id _ s.snapshots
        (put_doc-IsCounted r.workspace_id r.id (indexed_doc hash fpu float widen s.embedding_dim r)
          _ (refl, refl, live, refl) (snapshot_of-IsCounted r.workspace_id s.snapshots a))
        (insert-not_empty r.id _ _) a

  pub index-IsIndexed :
      (s : HybridRetriever) (r : MemoryRecord)
      → IsIndexed s.snapshots
      → IsIndexed (index hash fpu float widen s r).snapshots
  unfolding index remove
  index-IsIndexed s r a = either (Bool-cases r.tombstone)
    where
      either :
          (r.tombstone ≡ true) ⊎ (r.tombstone ≡ false)
          → IsIndexed (index hash fpu float widen s r).snapshots
      either (inl dead) =
          subst
            (λ b.
              IsIndexed
                (if b
                  then remove s r.workspace_id r.id
                  else add_document hash fpu float widen s r).snapshots)
            (sym dead) (remove_from-IsIndexed s.snapshots r.workspace_id r.id a)
      either (inr live) =
          subst
            (λ b.
              IsIndexed
                (if b
                  then remove s r.workspace_id r.id
                  else add_document hash fpu float widen s r).snapshots)
            (sym live) (add_document-IsIndexed s r live a)

  change-IsIndexed :
      (s : HybridRetriever) (x : Change)
      → IsIndexed s.snapshots
      → IsIndexed (change hash fpu float widen s x).snapshots
  unfolding change remove
  change-IsIndexed s (index_record r) a = index-IsIndexed s r a
  change-IsIndexed s (remove_record ws id) a = remove_from-IsIndexed s.snapshots ws id a

  -- Through any sequence of `Index` and `Remove`: each workspace stands once and is not empty, each of
  -- its documents stands once, under its own id and workspace, is no tombstone and has the length of
  -- its tokens; the total length is the sum of the lengths, and the document frequencies are those of
  -- the documents.
  pub changes-IsIndexed :
      (xs : List Change) (s : HybridRetriever)
      → IsIndexed s.snapshots
      → IsIndexed (changes hash fpu float widen s xs).snapshots
  unfolding changes
  changes-IsIndexed [] s a = a
  changes-IsIndexed (x ∷ xs) s a =
      changes-IsIndexed xs (change hash fpu float widen s x) (change-IsIndexed s x a)
