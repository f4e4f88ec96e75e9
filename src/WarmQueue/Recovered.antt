-- ===== src/WarmQueue/Recovered.antt =====
-- What the daemon makes of the claimed files that it finds when it starts.
use mathlib.Core.Path.{subst}
use mathlib.Core.Bool.{true≢false}
use local_ai_broker.Prelude.{
  String, false, not, List, [], ◌∷◌, str_eq, contains, ◌≡◌, refl, sym, ◌∙◌, ◌⊎◌, ◌↔◌, inl, inr,
  Bool-cases, arith, not-true, sort_by,
}
use local_ai_broker.Prelude.Distinct.{str_eq_comm}
use local_ai_broker.Prelude.Membership.{
  In, contains-In, In-contains, In-keep, In-sort_by, sort_by-In, nothing-In,
}
use local_ai_broker.WarmQueue.{
  Spool, without, recover_one, recover_loop, recover_warm_requests, earlier_path,
}

module _ {P : Type 0} where
  recover_one-requests :
      (s : Spool P) (stem x : String)
      → In x (recover_one s stem).requests ↔ ((x ≡ stem) ⊎ In x s.requests)
  unfolding recover_one
  recover_one-requests s stem x = elim (Bool-cases (contains stem s.requests)) [
    | inl there ↦
        rw (there, recover_one)
          (
            λ place. inr place,
            λ place. elim place [
              | inl same ↦
                  subst (λ y. In y s.requests) (sym same) (contains-In stem s.requests there)
              | inr other ↦ other
            ],
          )
    | inr gone ↦ rw (gone, recover_one) (λ place. place, λ place. place)
  ]

  recover_one-working :
      (s : Spool P) (stem : String) → (recover_one s stem).working ≡ without stem s.working
  unfolding recover_one
  recover_one-working s stem = elim (Bool-cases (contains stem s.requests)) [
    | inl there ↦ rw (there, recover_one) refl
    | inr gone ↦ rw (gone, recover_one) refl
  ]

  recover_loop-requests :
      (s : Spool P) (stems : List String) (x : String)
      → In x (recover_loop s stems).requests ↔ (In x stems ⊎ In x s.requests)
  unfolding recover_loop
  recover_loop-requests s [] x =
      (λ place. inr place, λ place. elim place [ inl nowhere ↦ absurd nowhere | inr there ↦ there ])
  recover_loop-requests s (stem ∷ stems) x =
      let (to, from) = recover_loop-requests (recover_one s stem) stems x in
      let (to_one, from_one) = recover_one-requests s stem x in
      (
        λ place. elim (to place) [
          | inl later ↦ inl (inr later)
          | inr there ↦ elim (to_one there) [ inl same ↦ inl (inl same) | inr before ↦ inr before ]
        ],
        λ place. elim place [
          | inl (inl same) ↦ from (inr (from_one (inl same)))
          | inl (inr later) ↦ from (inl later)
          | inr before ↦ from (inr (from_one (inr before)))
        ],
      )

  recover_loop-working :
      (s : Spool P) (stems : List String) (x : String)
      → In x (recover_loop s stems).working
      → In x s.working × (contains x stems ≡ false)
  unfolding recover_loop
  recover_loop-working s [] x place = (place, refl)
  recover_loop-working s (stem ∷ stems) x place =
      let (there, apart) = recover_loop-working (recover_one s stem) stems x place in
      let (before, other) =
        In-keep (λ o. not (str_eq stem o)) x s.working
          (subst (In x) (recover_one-working s stem) there) in
      (before, ground (arith, not-true (str_eq stem x) other, str_eq_comm x stem))

  -- A daemon that starts leaves no claimed file, and the requests that are queued then are those that were queued or
  -- claimed.
  pub recover_warm_requests-IsRecovered :
      (s : Spool P)
      → ((recover_warm_requests s).working ≡ [])
        × ((stem : String)
            → In stem (recover_warm_requests s).requests ↔ (In stem s.working ⊎ In stem s.requests))
  unfolding recover_warm_requests
  recover_warm_requests-IsRecovered s =
      let order = earlier_path ".working" in
      let sorted = sort_by order s.working in
      (
        nothing-In (recover_loop s sorted).working (λ x place.
            let (there, unvisited) = recover_loop-working s sorted x place in
            true≢false
              (sym (In-contains x sorted (sort_by-In order x s.working there)) ∙ unvisited)),
        λ stem.
            let (to, from) = recover_loop-requests s sorted stem in
            (
              λ place. elim (to place) [
                | inl claimed ↦ inl (In-sort_by order stem s.working claimed)
                | inr queued ↦ inr queued
              ],
              λ place. elim place [
                | inl claimed ↦ from (inl (sort_by-In order stem s.working claimed))
                | inr queued ↦ from (inr queued)
              ],
            ),
      )
