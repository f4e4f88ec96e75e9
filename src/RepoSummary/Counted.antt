-- ===== src/RepoSummary/Counted.antt =====
-- What the subsystems of a repository count.
use local_ai_broker.Prelude.{
  ℕ, ◌+◌, ◌≤◌, String, Bool, true, false, List, [], ◌∷◌, ◌++◌, str_eq, contains, distinct, take,
  length, length-take, length-map, map-take, map, ltb, sort_by, if◌then◌else◌, ◌≡◌, refl, sym, ap,
  ◌∙◌, inl, inr, Bool-cases, arith, eq_iff,
}
use local_ai_broker.Prelude.Distinct.{
  str_eq_comm, str_eq_refl, distinct-snoc, distinct-take, distinct-apart,
}
use local_ai_broker.Prelude.Sorting.{Sorted, Sorted-take, sort_by-Sorted, distinct-sort_by}
use local_ai_broker.Prelude.Membership.{In, In-sort_by, In-contains, map-In, In-take}
use local_ai_broker.RepoSummary.{
  count_in, RepoFile, Tally, bump, tally, most_common, counts_before, Subsystem, subsystem_of,
  top_dirs, derive_subsystems,
}

abbrev pub names_of : List Tally → List String
names_of table = map (λ (t : Tally). t.name) table

-- How often a text stands in a list.
abbrev pub occurrences : String → List String → ℕ
occurrences x [] = 0
occurrences x (y ∷ ys) = (if str_eq y x then 1 else 0) + occurrences x ys

count_in-bump :
    (name x : String) (table : List Tally)
    → count_in x (bump name table) ≡ (if str_eq name x then 1 else 0) + count_in x table
unfolding bump count_in
count_in-bump name x [] = ground arith
count_in-bump name x (t ∷ ts) =
    ground (arith, count_in-bump name x ts, eq_iff t.name name, eq_iff name x, eq_iff t.name x)

pub count_in-tally :
    (x : String) (names : List String) (table : List Tally)
    → count_in x (tally names table) ≡ occurrences x names + count_in x table
unfolding tally
count_in-tally x [] table = omega arith
count_in-tally x (name ∷ names) table =
    omega (arith, count_in-tally x names (bump name table), count_in-bump name x table)

names_of-bump :
    (name : String) (table : List Tally)
    → names_of (bump name table)
      ≡ (if contains name (names_of table) then names_of table else names_of table ++ name ∷ [])
unfolding bump
names_of-bump name [] = refl
names_of-bump name (t ∷ ts) = elim (Bool-cases (str_eq t.name name)) [
  | inl same ↦ rw (same, bump, str_eq_comm name t.name ∙ same) refl
  | inr apart ↦
      rw (apart, bump, str_eq_comm name t.name ∙ apart)
        (ap (λ l. t.name ∷ l) (names_of-bump name ts) ∙ pushed (contains name (names_of ts)))
]
  where
    pushed :
        (b : Bool)
        → t.name ∷ (if b then names_of ts else names_of ts ++ name ∷ [])
          ≡ (if b then t.name ∷ names_of ts else t.name ∷ names_of ts ++ name ∷ [])
    pushed true = refl
    pushed false = refl

tally-distinct :
    (names : List String) (table : List Tally)
    → distinct str_eq (names_of table) ≡ true
    → distinct str_eq (names_of (tally names table)) ≡ true
unfolding tally
tally-distinct [] table d = d
tally-distinct (name ∷ names) table d = tally-distinct names (bump name table) (
    ap (distinct str_eq) (names_of-bump name table)
    ∙ elim (Bool-cases (contains name (names_of table))) [
      | inl old ↦ rw (old) d
      | inr new ↦ rw (new) (distinct-snoc str_eq str_eq_comm (names_of table) name d new)
    ])

count_in-first : (t : Tally) (ts : List Tally) → t.count ≡ count_in t.name (t ∷ ts)
unfolding count_in
count_in-first t ts = rw (str_eq_refl t.name) refl

In-count_in :
    (t : Tally) (table : List Tally)
    → distinct str_eq (names_of table) ≡ true
    → In t table
    → t.count ≡ count_in t.name table
unfolding count_in
In-count_in t [] d place = absurd place
In-count_in t (u ∷ table) d (inl same) =
    ap (λ (x : Tally). x.count) same
    ∙ count_in-first u table
    ∙ ap (λ (x : Tally). count_in x.name (u ∷ table)) (sym same)
In-count_in t (u ∷ table) d (inr later) =
    let here = In-contains t.name (names_of table) (map-In (λ (x : Tally). x.name) t table later) in
    let apart = distinct-apart u.name t.name (names_of table) d here in
    rw (apart) (In-count_in t table (ground arith) later)

-- Subsystems that each count the files of their directory.
abbrev pub Count : List String → List Subsystem → Type 0
Count dirs [] = Unit
Count dirs (s ∷ ss) = (s.file_count ≡ occurrences s.name dirs) × Count dirs ss

subsystems-Count :
    (dirs : List String) (table : List Tally)
    → ((t : Tally) → In t table → t.count ≡ occurrences t.name dirs)
    → Count dirs (map subsystem_of table)
subsystems-Count dirs [] h = tt
subsystems-Count dirs (t ∷ ts) h =
    (h t (inl refl), subsystems-Count dirs ts (λ u place. h u (inr place)))

-- The names of subsystems, and the order of their counts.
abbrev pub subsystem_names : List Subsystem → List String
subsystem_names subsystems = map (λ (s : Subsystem). s.name) subsystems

abbrev pub fewer_files : Subsystem → Subsystem → Bool
fewer_files a b = ltb b.file_count a.file_count

subsystem_names-map :
    (table : List Tally) → subsystem_names (map subsystem_of table) ≡ names_of table
subsystem_names-map [] = refl
subsystem_names-map (t ∷ ts) = ap (λ l. t.name ∷ l) (subsystem_names-map ts)

Sorted-subsystems :
    (table : List Tally) → Sorted counts_before table → Sorted fewer_files (map subsystem_of table)
Sorted-subsystems [] h = tt
Sorted-subsystems (t ∷ []) h = tt
Sorted-subsystems (t ∷ u ∷ ts) h = (h.0, Sorted-subsystems (u ∷ ts) h.1)

counts_before_asymm : (a b : Tally) → counts_before a b ≡ true → counts_before b a ≡ false
counts_before_asymm a b h = ground arith

-- The subsystems are at most five, of different names; each counts the files of its top directory, and none
-- counts more than the one in front of it.
pub derive_subsystems-Count :
    (files : List RepoFile)
    → (length (derive_subsystems files) ≤ 5)
      × (distinct str_eq (subsystem_names (derive_subsystems files)) ≡ true)
      × Count (top_dirs files) (derive_subsystems files)
      × Sorted fewer_files (derive_subsystems files)
unfolding derive_subsystems most_common count_in
derive_subsystems-Count files =
    let dirs = top_dirs files in
    let table = tally dirs [] in
    let sorted = sort_by counts_before table in
    let different = tally-distinct dirs [] refl in
    (
      omega (arith, length-map subsystem_of (take 5 sorted), length-take 5 sorted),
      rw (subsystem_names-map (take 5 sorted), map-take (λ (t : Tally). t.name) 5 sorted)
          (distinct-take str_eq 5 (names_of sorted) (
            distinct-sort_by counts_before str_eq (λ (t : Tally). t.name) str_eq_comm table
              different)),
      subsystems-Count dirs (take 5 sorted) (λ t place.
          In-count_in t table different
            (In-sort_by counts_before t table (In-take t 5 sorted place))
          ∙ counted t dirs),
      Sorted-subsystems (take 5 sorted) (
          Sorted-take counts_before 5 sorted
            (sort_by-Sorted counts_before counts_before_asymm table)),
    )
  where
    counted :
        (t : Tally) (dirs : List String) → count_in t.name (tally dirs []) ≡ occurrences t.name dirs
    counted t dirs = omega (arith, count_in-tally t.name dirs [])
