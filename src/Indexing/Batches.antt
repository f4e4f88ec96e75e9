-- ===== src/Indexing/Batches.antt =====
-- The batches of an upload.
use mathlib.Core.List.{append-nil, append_assoc}
use mathlib.Core.Path.{subst}
use local_ai_broker.Prelude.{
  ℕ, ◌+◌, ◌≤◌, false, List, [], ◌∷◌, ◌++◌, true, ltb, leb, if◌then◌else◌, ◌&&◌, ◌||◌, length,
  length-append, ◌≡◌, refl, sym, ◌∙◌, ap, arith, All, All-snoc, inl, inr, Bool-cases,
}
use local_ai_broker.Prelude.Result.{ok, Result-cases}
use local_ai_broker.Indexing.{Document, max_index_batch_bytes, batch_loop, form_batches}

abbrev pub concat : List (List Document) → List Document
concat [] = []
concat (b ∷ bs) = b ++ concat bs

abbrev pub total_bytes : List Document → ℕ
total_bytes [] = 0
total_bytes (d ∷ ds) = d.bytes + total_bytes ds

-- A batch that may be posted.
abbrev pub IsBatch : ℕ → List Document → Type 0
IsBatch batch_size batch =
    (1 ≤ length batch) × (length batch ≤ batch_size) × (total_bytes batch ≤ max_index_batch_bytes)

concat-append : (bs cs : List (List Document)) → concat (bs ++ cs) ≡ concat bs ++ concat cs
concat-append [] cs = refl
concat-append (b ∷ bs) cs =
    ap (λ l. b ++ l) (concat-append bs cs) ∙ sym (append_assoc b (concat bs) (concat cs))

total_bytes-append :
    (ds es : List Document) → total_bytes (ds ++ es) ≡ total_bytes ds + total_bytes es
total_bytes-append [] es = omega arith
total_bytes-append (d ∷ ds) es = omega (arith, total_bytes-append ds es)

-- The state of the loop: closed batches, and an open one that is empty or a batch.
record IsForming (batch_size : ℕ) (seen : List Document) (batches : List (List Document))
    (batch : List Document) (bytes : ℕ) : Type 0 where
  whole : concat batches ++ batch ≡ seen
  closed : All (IsBatch batch_size) batches
  room : length batch ≤ batch_size
  bytes_counted : bytes ≡ total_bytes batch
  light : total_bytes batch ≤ max_index_batch_bytes

nothing_formed : (n : ℕ) → IsForming n [] [] [] 0
nothing_formed n = record {
  whole = refl;
  closed = tt;
  room = omega arith;
  bytes_counted = refl;
  light = omega arith;
}

closing :
    (n : ℕ) (d : Document) (seen : List Document) (batches : List (List Document))
    (batch : List Document) (bytes : ℕ)
    → 1 ≤ n
    → IsForming n seen batches batch bytes
    → 1 ≤ length batch
    → d.bytes ≤ max_index_batch_bytes
    → IsForming n (seen ++ d ∷ []) (batches ++ batch ∷ []) (d ∷ []) d.bytes
closing n d seen batches batch bytes m f full small = record {
  whole =
      ap (λ l. l ++ d ∷ [])
        (concat-append batches (batch ∷ [])
          ∙ ap (λ l. concat batches ++ l) (append-nil batch)
          ∙ f.whole);
  closed = All-snoc (IsBatch n) batches batch f.closed (full, f.room, f.light);
  room = omega arith;
  bytes_counted = omega arith;
  light = omega arith;
}

extended_light :
    (n : ℕ) (d : Document) (batch : List Document) (bytes : ℕ)
    → bytes ≡ total_bytes batch
    → d.bytes ≤ max_index_batch_bytes
    → (ltb 0 (length batch)
        && (leb n (length batch) || ltb max_index_batch_bytes (bytes + d.bytes)))
      ≡ false
    → total_bytes batch + d.bytes ≤ max_index_batch_bytes
extended_light n d [] bytes e small free = omega arith
extended_light n d (x ∷ xs) bytes e small free = ground arith

extending :
    (n : ℕ) (d : Document) (seen : List Document) (batches : List (List Document))
    (batch : List Document) (bytes : ℕ)
    → 1 ≤ n
    → IsForming n seen batches batch bytes
    → d.bytes ≤ max_index_batch_bytes
    → (ltb 0 (length batch)
        && (leb n (length batch) || ltb max_index_batch_bytes (bytes + d.bytes)))
      ≡ false
    → IsForming n (seen ++ d ∷ []) batches (batch ++ d ∷ []) (bytes + d.bytes)
extending n d seen batches batch bytes m f small free = record {
  whole = sym (append_assoc (concat batches) batch (d ∷ [])) ∙ ap (λ l. l ++ d ∷ []) f.whole;
  closed = f.closed;
  room = ground (arith, length-append batch (d ∷ []), f.room);
  bytes_counted = omega (arith, total_bytes-append batch (d ∷ []), f.bytes_counted);
  light = omega (
    arith,
    total_bytes-append batch (d ∷ []),
    extended_light n d batch bytes f.bytes_counted small free,
  );
}

batch_loop-IsForming :
    (batch_size : ℕ) (ds seen : List Document) (batches : List (List Document))
    (batch : List Document) (bytes : ℕ) (done : List (List Document) × List Document)
    → 1 ≤ batch_size
    → IsForming batch_size seen batches batch bytes
    → batch_loop batch_size ds batches batch bytes ≡ ok done
    → IsForming batch_size (seen ++ ds) done.0 done.1 (total_bytes done.1)
unfolding batch_loop
batch_loop-IsForming n [] seen batches batch bytes done m f h =
    let same : (batches, batch) ≡ done = ground arith in
    subst
      (λ (d : List (List Document) × List Document).
        IsForming n (seen ++ []) d.0 d.1 (total_bytes d.1))
      same
      (record {
        whole = f.whole ∙ sym (append-nil seen);
        closed = f.closed;
        room = f.room;
        bytes_counted = refl;
        light = f.light;
      })
batch_loop-IsForming n (d ∷ ds) seen batches batch bytes done m f h =
    elim (Bool-cases (ltb max_index_batch_bytes d.bytes)) [
      | inl large ↦ ground arith
      | inr small ↦
          elim (Bool-cases (
            ltb 0 (length batch)
            && (leb n (length batch) || ltb max_index_batch_bytes (bytes + d.bytes)))) [
              | inl full ↦
                  subst (λ l. IsForming n l done.0 done.1 (total_bytes done.1))
                    (append_assoc seen (d ∷ []) ds)
                    (batch_loop-IsForming n ds (seen ++ d ∷ []) (batches ++ batch ∷ []) (d ∷ [])
                      d.bytes done m
                      (closing n d seen batches batch bytes m f (ground arith) (ground arith))
                      (ground arith))
              | inr free ↦
                  subst (λ l. IsForming n l done.0 done.1 (total_bytes done.1))
                    (append_assoc seen (d ∷ []) ds)
                    (batch_loop-IsForming n ds (seen ++ d ∷ []) batches (batch ++ d ∷ [])
                      (bytes + d.bytes) done m
                      (extending n d seen batches batch bytes m f (ground arith) free)
                      (ground arith))
            ]
    ]

-- The last batch is closed if it holds a document.
finish :
    (n : ℕ) (documents : List Document) (batches : List (List Document))
    (done : List (List Document) × List Document)
    → 1 ≤ n
    → IsForming n documents done.0 done.1 (total_bytes done.1)
    → (if ltb 0 (length done.1) || false then done.0 ++ done.1 ∷ [] else done.0) ≡ batches
    → (concat batches ≡ documents) × All (IsBatch n) batches
finish n documents batches (closed, []) m f h =
    subst (λ b. (concat b ≡ documents) × All (IsBatch n) b) h
      (sym (append-nil (concat closed)) ∙ f.whole, f.closed)
finish n documents batches (closed, d ∷ ds) m f h =
    let same : (closed ++ (d ∷ ds) ∷ []) ≡ batches = ground arith in
    subst (λ b. (concat b ≡ documents) × All (IsBatch n) b) same
      (
        concat-append closed ((d ∷ ds) ∷ [])
            ∙ ap (λ l. concat closed ++ l) (append-nil (d ∷ ds))
            ∙ f.whole,
        All-snoc (IsBatch n) closed (d ∷ ds) f.closed (omega arith, f.room, f.light),
      )

-- An update has one batch at least, of which the last may hold no document.
pub form_batches-updates :
    (batch_size : ℕ) (documents : List Document) (batches : List (List Document))
    → 1 ≤ batch_size
    → form_batches batch_size true documents ≡ ok batches
    → (concat batches ≡ documents) × (1 ≤ length batches)
unfolding form_batches
form_batches-updates n documents batches m h =
    elim (Result-cases (batch_loop n documents [] [] 0)) [
      | inr (e, refused) ↦ ground arith
      | inl (done, e) ↦
          let f = batch_loop-IsForming n documents [] [] [] 0 done m (nothing_formed n) e in
          let same : (done.0 ++ done.1 ∷ []) ≡ batches = ground arith in
          subst (λ b. (concat b ≡ documents) × (1 ≤ length b)) same
            (
              concat-append done.0 (done.1 ∷ [])
                  ∙ ap (λ l. concat done.0 ++ l) (append-nil done.1)
                  ∙ f.whole,
              omega (arith, length-append done.0 (done.1 ∷ [])),
            )
    ]

-- With a batch size of 1 at least, the batches that are formed hold the documents in their order. For an
-- upload that is no update each batch has one document at least; every batch has at most `batch_size`
-- documents and at most eight megabytes.
pub form_batches-IsBatch :
    (batch_size : ℕ) (documents : List Document) (batches : List (List Document))
    → 1 ≤ batch_size
    → form_batches batch_size false documents ≡ ok batches
    → (concat batches ≡ documents) × All (IsBatch batch_size) batches
unfolding form_batches
form_batches-IsBatch n documents batches m h =
    elim (Result-cases (batch_loop n documents [] [] 0)) [
      | inr (e, refused) ↦ ground arith
      | inl (done, e) ↦
          let f = batch_loop-IsForming n documents [] [] [] 0 done m (nothing_formed n) e in
          finish n documents batches done m f (ground arith)
    ]
