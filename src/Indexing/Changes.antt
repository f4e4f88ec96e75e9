-- ===== src/Indexing/Changes.antt =====
-- What the ids of a sync plan say of the documents.
use mathlib.Core.Option
use mathlib.Core.Path.{subst}
use local_ai_broker.Prelude.{
  String, Bool, true, false, not, Option, none, some, List, [], ◌∷◌, str_eq, eq_iff, ◌&&◌, map,
  keep, contains, sort_by, ◌≡◌, refl, sym, ◌∙◌, ap, arith, distinct, inl, inr, Bool-cases,
}
use local_ai_broker.Prelude.Membership.{
  contains-In, In-contains, In-sort_by, sort_by-In, keep-true, keep-false,
}
use local_ai_broker.Prelude.Distinct.{str_eq_comm}
use local_ai_broker.Prelude.Text.{is_empty}
use local_ai_broker.Indexing.{Document}
use local_ai_broker.Indexing.Sync.{
  Signatures, signed, signature_in, is_changed, is_removed, signed_id, named, has,
}
use local_ai_broker.Indexing.Upload.{same_id}
use local_ai_broker.Indexing.Lookup.{find_document, find_document-absent}

pub contains-sort_by :
    (before : String → String → Bool) (x : String) (xs : List String)
    → contains x (sort_by before xs) ≡ contains x xs
contains-sort_by before x xs = elim (Bool-cases (contains x xs)) [
  | inl there ↦ In-contains x _ (sort_by-In before x xs (contains-In x xs there)) ∙ sym there
  | inr absent ↦ elim (Bool-cases (contains x (sort_by before xs))) [
    | inr absent_too ↦ absent_too ∙ sym absent
    | inl there ↦ there ∙ sym (In-contains x xs (In-sort_by before x xs (contains-In x _ there)))
  ]
]

pub contains-named :
    (id : String) (ids : List String)
    → contains id (named ids) ≡ (contains id ids && not (is_empty id))
contains-named id [] = refl
contains-named id (x ∷ xs) = elim (Bool-cases (is_empty x)) [
  | inl empty ↦ ground (arith, eq_iff id x, ap is_empty, contains-named id xs)
  | inr full ↦ ground (arith, eq_iff id x, contains-named id xs)
]

pub signature_in-signed :
    (sign : Document → String) (id : String) (ds : List Document)
    → signature_in id (map (signed sign) ds) ≡ Option.map sign (find_document id ds)
unfolding signature_in
signature_in-signed sign id [] = refl
signature_in-signed sign id (d ∷ ds) = elim (Bool-cases (str_eq d.id id)) [
  | inl same ↦ rw same refl
  | inr apart ↦ rw apart (signature_in-signed sign id ds)
]

-- A changed id is that of a document whose signature is not the earlier one.
abbrev pub changes : (Document → String) → Signatures → Option Document → Bool
changes sign previous none = false
changes sign previous (some d) = is_changed previous (signed sign d)

pub contains-changed :
    (sign : Document → String) (previous : Signatures) (id : String) (ds : List Document)
    → distinct same_id ds ≡ true
    → contains id (map signed_id (keep (is_changed previous) (map (signed sign) ds)))
      ≡ changes sign previous (find_document id ds)
contains-changed sign previous id [] h = refl
contains-changed sign previous id (d ∷ ds) h = elim (Bool-cases (str_eq d.id id)) [
  | inl same ↦
      let absent : find_document id ds ≡ none =
        subst (λ i. find_document i ds ≡ none) ((eq_iff d.id id).0 same)
          (find_document-absent d ds (ground arith)) in
      let later = contains-changed sign previous id ds (ground arith) in
      elim (Bool-cases (is_changed previous (signed sign d))) [
        | inl new ↦
            ap (λ l. contains id (map signed_id l))
              (keep-true (is_changed previous) _ (map (signed sign) ds) new)
            ∙ rw (same, str_eq_comm id d.id ∙ same) (sym new)
        | inr old ↦
            ap (λ l. contains id (map signed_id l))
              (keep-false (is_changed previous) _ (map (signed sign) ds) old)
            ∙ rw (same) (later ∙ rw absent (sym old))
      ]
  | inr apart ↦
      let later = contains-changed sign previous id ds (ground arith) in
      elim (Bool-cases (is_changed previous (signed sign d))) [
        | inl new ↦
            ap (λ l. contains id (map signed_id l))
              (keep-true (is_changed previous) _ (map (signed sign) ds) new)
            ∙ rw (apart, str_eq_comm id d.id ∙ apart) later
        | inr old ↦
            ap (λ l. contains id (map signed_id l))
              (keep-false (is_changed previous) _ (map (signed sign) ds) old)
            ∙ rw (apart) later
      ]
]

pub contains-removed :
    (signatures : Signatures) (id : String) (previous : Signatures)
    → contains id (map signed_id (keep (is_removed signatures) previous))
      ≡ (has (signature_in id previous) && not (has (signature_in id signatures)))
unfolding signature_in
contains-removed signatures id [] = refl
contains-removed signatures id (p ∷ ps) =
    let later = contains-removed signatures id ps in
    elim (Bool-cases (str_eq p.0 id)) [
      | inl same ↦
          let of_id : is_removed signatures p ≡ not (has (signature_in id signatures)) =
            ap (λ i. not (has (signature_in i signatures))) ((eq_iff p.0 id).0 same) in
          elim (Bool-cases (is_removed signatures p)) [
            | inl gone ↦
                ap (λ l. contains id (map signed_id l))
                  (keep-true (is_removed signatures) p ps gone)
                ∙ rw (same, str_eq_comm id p.0 ∙ same) (sym gone ∙ of_id)
            | inr stays ↦
                ap (λ l. contains id (map signed_id l))
                  (keep-false (is_removed signatures) p ps stays)
                ∙ rw (same) (later ∙ rw (sym of_id ∙ stays) (ground arith))
          ]
      | inr apart ↦ elim (Bool-cases (is_removed signatures p)) [
        | inl gone ↦
            ap (λ l. contains id (map signed_id l)) (keep-true (is_removed signatures) p ps gone)
            ∙ rw (apart, str_eq_comm id p.0 ∙ apart) later
        | inr stays ↦
            ap (λ l. contains id (map signed_id l)) (keep-false (is_removed signatures) p ps stays)
            ∙ rw (apart) later
      ]
    ]
