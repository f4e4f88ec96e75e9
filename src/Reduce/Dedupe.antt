-- ===== src/Reduce/Dedupe.antt =====
-- The deduplications against a plain definition.
use local_ai_broker.Prelude.{
  map-take, ℕ, zero, suc, ◌+◌, Bool, true, false, Option, none, some, List, [], ◌∷◌, ◌++◌, length,
  length-append, take, member, if◌then◌else◌, ◌==◌, ◌≡◌, refl, sym, ◌∙◌, ap, arith, inl, inr,
  Bool-cases, distinct, map, ◌<◌,
}
use mathlib.Core.List.{append-nil, append_assoc}
use local_ai_broker.Prelude.Distinct.{distinct-take}
use local_ai_broker.Prelude.Membership.{In}
use local_ai_broker.Reduce.{dedupe_loop, dedupe}

module _ {A K : Type 0} (key : A → K) (same : K → K → Bool) where
  -- The items of the right type whose key was not seen before them.
  abbrev pub first_of_key : List K → List (Option A) → List A
  first_of_key seen [] = []
  first_of_key seen (none ∷ items) = first_of_key seen items
  first_of_key seen (some item ∷ items) =
      if member same (key item) seen
      then first_of_key seen items
      else item ∷ first_of_key (key item ∷ seen) items

  dedupe_loop-first_of_key :
      (limit : ℕ) (seen : List K) (output : List A) (items : List (Option A)) (room : ℕ)
      → length output + suc room ≡ limit
      → dedupe_loop key same limit seen output items
        ≡ output ++ take (suc room) (first_of_key seen items)
  unfolding dedupe_loop
  dedupe_loop-first_of_key limit seen output [] room e = sym (append-nil output)
  dedupe_loop-first_of_key limit seen output (none ∷ items) room e =
      dedupe_loop-first_of_key limit seen output items room e
  dedupe_loop-first_of_key limit seen output (some item ∷ items) room e =
      elim (Bool-cases (member same (key item) seen)) [
        | inl old ↦ rw (old, dedupe_loop) (dedupe_loop-first_of_key limit seen output items room e)
        | inr new ↦
            let next = λ (r : ℕ). dedupe_loop-first_of_key limit (key item ∷ seen) shown items r in
            rw (new, dedupe_loop) (fresh next room e)
      ]
    where
      shown : List A
      shown = output ++ item ∷ []

      later : List A
      later = first_of_key (key item ∷ seen) items

      fresh :
          ((r : ℕ)
            → length shown + suc r ≡ limit
            → dedupe_loop key same limit (key item ∷ seen) shown items
              ≡ shown ++ take (suc r) later)
          → (room : ℕ) → length output + suc room ≡ limit
          → (if length shown == limit
              then shown
              else dedupe_loop key same limit (key item ∷ seen) shown items)
            ≡ output ++ item ∷ take room later
      fresh next zero e = ground (arith, e, length-append output (item ∷ []))
      fresh next (suc room) e =
          let longer : length shown + suc room ≡ limit =
            omega (arith, e, length-append output (item ∷ [])) in
          ground (
            arith,
            longer,
            next room longer,
            append_assoc output (item ∷ []) (take (suc room) later),
          )

  unlike :
      (x y : K) (seen : List K)
      → ((a b : K) → same a b ≡ same b a)
      → In x seen
      → member same y seen ≡ false
      → same x y ≡ false
  unlike x y [] symmetric place m = absurd place
  unlike x y (z ∷ seen) symmetric (inl e) m = ap (λ u. same u y) e ∙ symmetric z y ∙ ground arith
  unlike x y (z ∷ seen) symmetric (inr place) m = unlike x y seen symmetric place (ground arith)

  -- No later item has the key of one that was seen.
  pub first_of_key-skips :
      (x : K) (seen : List K) (items : List (Option A))
      → ((a b : K) → same a b ≡ same b a)
      → In x seen
      → member same x (map key (first_of_key seen items)) ≡ false
  first_of_key-skips x seen [] symmetric place = refl
  first_of_key-skips x seen (none ∷ items) symmetric place =
      first_of_key-skips x seen items symmetric place
  first_of_key-skips x seen (some item ∷ items) symmetric place =
      let other = unlike x (key item) seen symmetric place in
      ground (
        arith,
        other,
        first_of_key-skips x seen items symmetric place,
        first_of_key-skips x (key item ∷ seen) items symmetric (inr place),
      )

  pub first_of_key-distinct :
      (seen : List K) (items : List (Option A))
      → ((a b : K) → same a b ≡ same b a)
      → distinct same (map key (first_of_key seen items)) ≡ true
  first_of_key-distinct seen [] symmetric = refl
  first_of_key-distinct seen (none ∷ items) symmetric = first_of_key-distinct seen items symmetric
  first_of_key-distinct seen (some item ∷ items) symmetric = ground (
    arith,
    first_of_key-distinct seen items symmetric,
    first_of_key-distinct (key item ∷ seen) items symmetric,
    first_of_key-skips (key item) (key item ∷ seen) items symmetric (inl refl),
  )

  -- For a test of keys that is symmetric and a limit of at least one, the deduplication gives the first items, as
  -- many as the limit, of those of the right type whose key no item before them has, and no two keys that
  -- it gives are the same.
  pub dedupe-take :
      (limit : ℕ) (items : List (Option A))
      → 0 < limit
      → ((a b : K) → same a b ≡ same b a)
      → (dedupe key same limit items ≡ take limit (first_of_key [] items))
        × (distinct same (map key (dedupe key same limit items)) ≡ true)
  unfolding dedupe
  dedupe-take zero items some_room symmetric = absurd (omega arith)
  dedupe-take (suc room) items some_room symmetric =
      let e = dedupe_loop-first_of_key (suc room) [] [] items room (omega arith) in
      let d =
        distinct-take same (suc room) (map key (first_of_key [] items))
          (first_of_key-distinct [] items symmetric) in
      (e, rw (e, map-take key (suc room) (first_of_key [] items)) d)
