-- ===== src/Indexing/Lookup.antt =====
-- The documents of an index by their ids.
use mathlib.Core.Path.{subst}
use mathlib.Core.Bool.{false≢true}
use local_ai_broker.Prelude.{
  suc, ◌≤◌, String, Bool, true, false, not, Option, none, some, List, [], ◌∷◌, str_eq, eq_iff, ◌||◌,
  if◌then◌else◌, length, keep, ◌≡◌, refl, sym, ◌∙◌, ap, arith, member, distinct, inl, inr,
  Bool-cases,
}
use local_ai_broker.Prelude.Distinct.{str_eq_comm, str_eq_refl}
use local_ai_broker.Indexing.{Document, put_document, put_documents}
use local_ai_broker.Indexing.Upload.{same_id}

abbrev pub find_document : String → List Document → Option Document
find_document id [] = none
find_document id (d ∷ ds) = if str_eq d.id id then some d else find_document id ds

-- The first of two answers that is there.
abbrev pub first_of : Option Document → Option Document → Option Document
first_of none other = other
first_of (some d) other = some d

pub put_document-find :
    (id : String) (d : Document) (stored : List Document)
    → find_document id (put_document d stored)
      ≡ (if str_eq d.id id then some d else find_document id stored)
unfolding put_document
put_document-find id d [] = refl
put_document-find id d (x ∷ xs) = elim (Bool-cases (str_eq x.id d.id)) [
  | inl same ↦ ground (arith, eq_iff x.id d.id)
  | inr apart ↦
      ground (arith, eq_iff x.id id, eq_iff d.id id, eq_iff x.id d.id, put_document-find id d xs)
]

pub find_document-absent :
    (d : Document) (ds : List Document) → member same_id d ds ≡ false → find_document d.id ds ≡ none
find_document-absent d [] h = refl
find_document-absent d (x ∷ xs) h = ground (arith, str_eq_comm d.id x.id, find_document-absent d xs)

pub put_documents-find :
    (id : String) (ds stored : List Document)
    → distinct same_id ds ≡ true
    → find_document id (put_documents ds stored)
      ≡ first_of (find_document id ds) (find_document id stored)
unfolding put_documents
put_documents-find id [] stored h = refl
put_documents-find id (d ∷ ds) stored h =
    put_documents-find id ds (put_document d stored) (ground arith)
    ∙ ap (first_of (find_document id ds)) (put_document-find id d stored)
    ∙ elim (Bool-cases (str_eq d.id id)) [
      | inl same ↦
          let absent : find_document id ds ≡ none =
            subst (λ i. find_document i ds ≡ none) ((eq_iff d.id id).0 same)
              (find_document-absent d ds (ground arith)) in
          rw (same, absent) refl
      | inr apart ↦ rw apart refl
    ]

pub keep-find :
    (p : String → Bool) (id : String) (ds : List Document)
    → find_document id (keep (λ d. p d.id) ds) ≡ (if p id then find_document id ds else none)
keep-find p id [] = ground arith
keep-find p id (d ∷ ds) = elim (Bool-cases (str_eq d.id id)) [
  | inl same ↦ elim (Bool-cases (p d.id)) [
    | inl kept ↦
        let named : p id ≡ true = ap p (sym ((eq_iff d.id id).0 same)) ∙ kept in
        rw (kept, named, same) refl
    | inr dropped ↦
        let named : p id ≡ false = ap p (sym ((eq_iff d.id id).0 same)) ∙ dropped in
        rw dropped (keep-find p id ds ∙ rw named refl)
  ]
  | inr apart ↦ elim (Bool-cases (p d.id)) [
    | inl kept ↦ rw (kept, apart) (keep-find p id ds)
    | inr dropped ↦ rw (dropped, apart) (keep-find p id ds)
  ]
]

-- Documents with different ids stay so.
put_document-member :
    (x d : Document) (stored : List Document)
    → member same_id x stored ≡ false
    → str_eq x.id d.id ≡ false
    → member same_id x (put_document d stored) ≡ false
unfolding put_document
put_document-member x d [] m h = ground arith
put_document-member x d (y ∷ ys) m h = ground (arith, put_document-member x d ys)

same_id-member :
    (d y : Document) (ys : List Document)
    → str_eq y.id d.id ≡ true
    → member same_id d ys ≡ member same_id y ys
same_id-member d y [] h = refl
same_id-member d y (x ∷ xs) h =
    ground (arith, eq_iff y.id d.id, eq_iff d.id x.id, eq_iff y.id x.id, same_id-member d y xs)

put_document-distinct :
    (d : Document) (stored : List Document)
    → distinct same_id stored ≡ true
    → distinct same_id (put_document d stored) ≡ true
unfolding put_document
put_document-distinct d [] h = refl
put_document-distinct d (y ∷ ys) h = elim (Bool-cases (str_eq y.id d.id)) [
  | inl same ↦ ground (arith, same_id-member d y ys same)
  | inr apart ↦ ground (arith, put_document-member y d ys, put_document-distinct d ys)
]

pub put_documents-distinct :
    (ds stored : List Document)
    → distinct same_id stored ≡ true
    → distinct same_id (put_documents ds stored) ≡ true
unfolding put_documents
put_documents-distinct [] stored h = h
put_documents-distinct (d ∷ ds) stored h =
    put_documents-distinct ds (put_document d stored) (put_document-distinct d stored h)

keep-member :
    (p : Document → Bool) (x : Document) (ds : List Document)
    → member same_id x ds ≡ false
    → member same_id x (keep p ds) ≡ false
keep-member p x [] h = refl
keep-member p x (d ∷ ds) h = ground (arith, keep-member p x ds)

pub keep-distinct :
    (p : Document → Bool) (ds : List Document)
    → distinct same_id ds ≡ true
    → distinct same_id (keep p ds) ≡ true
keep-distinct p [] h = refl
keep-distinct p (d ∷ ds) h = ground (arith, keep-member p d ds, keep-distinct p ds)

-- Whether a document has the id.
abbrev pub is_held : String → List Document → Bool
is_held id [] = false
is_held id (d ∷ ds) = str_eq d.id id || is_held id ds

is_held-member : (x : Document) (ds : List Document) → member same_id x ds ≡ is_held x.id ds
is_held-member x [] = refl
is_held-member x (d ∷ ds) = ground (arith, str_eq_comm x.id d.id, is_held-member x ds)

abbrev without_id : String → List Document → List Document
without_id id ds = keep (λ d. not (str_eq d.id id)) ds

without_id-short : (id : String) (ds : List Document) → length (without_id id ds) ≤ length ds
without_id-short id [] = omega arith
without_id-short id (d ∷ ds) = ground (arith, without_id-short id ds)

without_id-length :
    (id : String) (ds : List Document)
    → is_held id ds ≡ true
    → suc (length (without_id id ds)) ≤ length ds
without_id-length id [] h = absurd (false≢true h)
without_id-length id (d ∷ ds) h = ground (arith, without_id-short id ds, without_id-length id ds)

is_held-without_id :
    (id other : String) (ds : List Document)
    → is_held id ds ≡ true
    → str_eq other id ≡ false
    → is_held id (without_id other ds) ≡ true
is_held-without_id id other [] h n = h
is_held-without_id id other (d ∷ ds) h n =
    ground
      (arith, eq_iff d.id other, eq_iff d.id id, eq_iff other id, is_held-without_id id other ds)

-- Of documents with different ids, whose ids are all held, there are no more than are held.
pub distinct-length :
    (xs ys : List Document)
    → distinct same_id xs ≡ true
    → ((id : String) → is_held id xs ≡ true → is_held id ys ≡ true)
    → length xs ≤ length ys
distinct-length [] ys d h = omega arith
distinct-length (x ∷ xs) ys d h =
    let there : is_held x.id ys ≡ true = h x.id (ground (arith, str_eq_refl x.id)) in
    let fewer =
      distinct-length xs (without_id x.id ys) (ground arith)
        (λ id held. is_held-without_id id x.id ys (h id (ground arith)) (apart id held)) in
    omega (arith, without_id-length x.id ys there, fewer)
  where
    apart : (id : String) → is_held id xs ≡ true → str_eq x.id id ≡ false
    apart id held = elim (Bool-cases (str_eq x.id id)) [
      | inr n ↦ n
      | inl same ↦
          let held_here : is_held x.id xs ≡ true =
            ap (λ i. is_held i xs) ((eq_iff x.id id).0 same) ∙ held in
          ground (arith, is_held-member x xs)
    ]

pub is_held-find :
    (id : String) (ds : List Document)
    → is_held id ds ≡ (elim (find_document id ds) [ none ↦ false | some d ↦ true ])
is_held-find id [] = refl
is_held-find id (d ∷ ds) = elim (Bool-cases (str_eq d.id id)) [
  | inl same ↦ rw same refl
  | inr apart ↦ rw apart (is_held-find id ds)
]
