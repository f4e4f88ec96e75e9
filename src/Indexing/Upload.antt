-- ===== src/Indexing/Upload.antt =====
-- What the requests of a whole upload leave in the service, where it accepts them.
use mathlib.Core.Path.{subst}
use mathlib.Core.List.{append-nil, append_assoc}
use local_ai_broker.Prelude.{
  ◌≤◌, String, Bool, true, false, not, some, List, [], ◌∷◌, ◌++◌, str_eq, eq_iff, ◌||◌, ◌==◌,
  length, keep, ◌≡◌, ◌≢◌, refl, sym, ◌∙◌, ap, arith, member, distinct, contains,
}
use local_ai_broker.Prelude.Text.{is_empty}
use local_ai_broker.Prelude.Distinct.{member-append, str_eq_comm}
use local_ai_broker.Indexing.{
  Document, Index, Store, Upsert, put_document, put_documents, base_of, opened, index_status,
  upserts, put_into,
}
use local_ai_broker.Indexing.Accepted.{accept, accept_all}
use local_ai_broker.Indexing.Batches.{concat}

abbrev pub same_id : Document → Document → Bool
same_id a b = str_eq a.id b.id

put_document-new :
    (d : Document) (stored : List Document)
    → member same_id d stored ≡ false
    → put_document d stored ≡ stored ++ d ∷ []
unfolding put_document
put_document-new d [] h = refl
put_document-new d (x ∷ xs) h = ground (arith, str_eq_comm d.id x.id, put_document-new d xs)

distinct-middle :
    (xs : List Document) (d : Document) (ys : List Document)
    → distinct same_id (xs ++ d ∷ ys) ≡ true
    → member same_id d xs ≡ false
distinct-middle [] d ys h = refl
distinct-middle (x ∷ xs) d ys h =
    ground
      (arith, str_eq_comm d.id x.id, member-append same_id x xs (d ∷ ys), distinct-middle xs d ys)

pub put_documents-new :
    (ds stored : List Document)
    → distinct same_id (stored ++ ds) ≡ true
    → put_documents ds stored ≡ stored ++ ds
unfolding put_documents
put_documents-new [] stored h = sym (append-nil stored)
put_documents-new (d ∷ ds) stored h =
    let next : distinct same_id ((stored ++ d ∷ []) ++ ds) ≡ true =
      subst (λ l. distinct same_id l ≡ true) (sym (append_assoc stored (d ∷ []) ds)) h in
    ap (put_documents ds) (put_document-new d stored (distinct-middle stored d ds h))
    ∙ put_documents-new ds (stored ++ d ∷ []) next
    ∙ append_assoc stored (d ∷ []) ds

pub keep-nothing_removed : (ds : List Document) → keep (λ d. not (contains d.id [])) ds ≡ ds
keep-nothing_removed [] = refl
keep-nothing_removed (d ∷ ds) = ap (λ l. d ∷ l) (keep-nothing_removed ds)

abbrev pub index_of : Bool → List Document → Index
index_of ready documents = record { ready = ready; documents = documents }

-- A request that removes nothing, on an index that is there.
accept-appends :
    (key : String) (u : Upsert) (store : Store) (stored : List Document)
    → opened store key u ≡ index_of false stored
    → u.removed_document_ids ≡ []
    → distinct same_id (stored ++ u.documents) ≡ true
    → accept key u store key ≡ some (index_of (u.finalize || false) (stored ++ u.documents))
unfolding accept put_into
accept-appends key u store stored o r d =
    let self : str_eq key key ≡ true = (eq_iff key key).1 refl in
    rw (self, o, r, accept, put_into)
      (ap (λ l. some (index_of (u.finalize || false) l))
        (ap (put_documents u.documents) (keep-nothing_removed stored)
          ∙ put_documents-new u.documents stored d))

distinct-front :
    (xs ys : List Document) → distinct same_id (xs ++ ys) ≡ true → distinct same_id xs ≡ true
distinct-front [] ys h = refl
distinct-front (x ∷ xs) ys h = ground (arith, member-append same_id x xs ys, distinct-front xs ys)

pub opened-kept :
    (key : String) (u : Upsert) (store : Store) (index : Index)
    → u.replace ≡ false
    → store key ≡ some index
    → opened store key u ≡ index
unfolding opened
opened-kept key u store index r h = ground arith

-- The requests after the first.
accept_all-appends :
    (key : String) (base : String) (removed : List String) (bs : List (List Document))
    (store : Store) (stored : List Document)
    → 1 ≤ length bs
    → store key ≡ some (index_of false stored)
    → distinct same_id (stored ++ concat bs) ≡ true
    → accept_all key (upserts false base removed bs) store key
      ≡ some (index_of true (stored ++ concat bs))
unfolding accept_all upserts
accept_all-appends key base removed [] store stored n h d = absurd (omega arith)
accept_all-appends key base removed (b ∷ []) store stored n h d =
    let whole : b ++ [] ≡ b = append-nil b in
    accept-appends key _ store stored (opened-kept key _ store _ refl h) refl (rw whole at d)
    ∙ ap (λ l. some (index_of true (stored ++ l))) (sym whole)
accept_all-appends key base removed (b ∷ c ∷ bs) store stored n h d =
    let grouped : distinct same_id ((stored ++ b) ++ concat (c ∷ bs)) ≡ true =
      subst (λ l. distinct same_id l ≡ true) (sym (append_assoc stored b (concat (c ∷ bs)))) d in
    let open_still : (length (c ∷ bs) == 0 || false) ≡ false = ground arith in
    accept_all-appends key base removed (c ∷ bs) _ (stored ++ b) (omega arith)
      (accept-appends key _ store stored (opened-kept key _ store _ refl h) refl
          (distinct-front (stored ++ b) (concat (c ∷ bs)) grouped)
        ∙ ap (λ r. some (index_of r (stored ++ b))) open_still)
      grouped
    ∙ ap (λ l. some (index_of true l)) (append_assoc stored b (concat (c ∷ bs)))

opened-replaced :
    (key : String) (u : Upsert) (store : Store)
    → u.replace ≡ true
    → is_empty u.base_index_fingerprint ≡ true
    → opened store key u ≡ index_of false []
unfolding opened base_of
opened-replaced key u store r b = rw (r, b, opened) refl

accept-others :
    (key other : String) (u : Upsert) (store : Store)
    → other ≢ key
    → accept key u store other ≡ store other
unfolding accept put_into
accept-others key other u store ne =
    let apart : str_eq other key ≡ false = ground (arith, eq_iff other key) in
    rw (apart, accept) refl

accept_all-others :
    (key other : String) (us : List Upsert) (store : Store)
    → other ≢ key
    → accept_all key us store other ≡ store other
unfolding accept_all
accept_all-others key other [] store ne = refl
accept_all-others key other (u ∷ us) store ne =
    accept_all-others key other us (accept key u store) ne ∙ accept-others key other u store ne

upload_eq :
    (key : String) (batches : List (List Document)) (store : Store)
    → 1 ≤ length batches
    → distinct same_id (concat batches) ≡ true
    → accept_all key (upserts true "" [] batches) store key ≡ some (index_of true (concat batches))
unfolding accept_all upserts
upload_eq key [] store n d = absurd (omega arith)
upload_eq key (b ∷ []) store n d =
    let whole : b ++ [] ≡ b = append-nil b in
    accept-appends key _ store [] (opened-replaced key _ store refl refl) refl (rw whole at d)
    ∙ ap (λ l. some (index_of true l)) (sym whole)
upload_eq key (b ∷ c ∷ bs) store n d =
    let open_still : (length (c ∷ bs) == 0 || false) ≡ false = ground arith in
    accept_all-appends key "" [] (c ∷ bs) _ b (omega arith)
      (accept-appends key _ store [] (opened-replaced key _ store refl refl) refl
          (distinct-front b (concat (c ∷ bs)) d)
        ∙ ap (λ r. some (index_of r b)) open_still)
      d

-- Accepted requests of an upload of at least one batch, of documents with different ids, without a base and
-- with nothing removed, leave the index of the fingerprint ready, with exactly the documents in their
-- order, whatever was there before; its status for their number is ready; and the index of every other
-- fingerprint is as it was.
pub upserts-IsUploaded :
    (key : String) (batches : List (List Document)) (store : Store)
    → 1 ≤ length batches
    → distinct same_id (concat batches) ≡ true
    → (accept_all key (upserts true "" [] batches) store key
        ≡ some (index_of true (concat batches)))
      × (index_status key
            (length (concat batches))
            (accept_all key (upserts true "" [] batches) store)
          ≡ true)
      × ((other : String)
          → other ≢ key
          → accept_all key (upserts true "" [] batches) store other ≡ store other)
unfolding index_status
upserts-IsUploaded key batches store n d =
    let uploaded = upload_eq key batches store n d in
    let same_count : (length (concat batches) == length (concat batches)) ≡ true = ground arith in
    (
      uploaded,
      rw (uploaded, index_status) same_count,
      λ other ne. accept_all-others key other (upserts true "" [] batches) store ne,
    )
