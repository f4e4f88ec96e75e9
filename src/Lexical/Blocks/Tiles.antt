-- ===== src/Lexical/Blocks/Tiles.antt =====
-- The chunks of a file tile its lines.
use local_ai_broker.Prelude.{
  ℕ, zero, suc, ◌+◌, ◌-◌, ◌≤◌, ◌<◌, min, String, List, [], ◌∷◌, ◌++◌, length, take, drop, ltb, keep,
  str_eq, if◌then◌else◌, ◌≡◌, refl, sym, ◌∙◌, ap, arith, inl, inr, Bool-cases, length-drop,
  length-take, take-short,
}
use local_ai_broker.Chunking.{join_lines}
use local_ai_broker.Lexical.{Input, Chunk, make_chunk}
use mathlib.Core.Path.{subst}
use mathlib.Core.List.{append_assoc}
use local_ai_broker.Prelude.{map}
use local_ai_broker.Prelude.Membership.{keep-true, keep-false}
use local_ai_broker.Lexical.Blocks.{
  block_loop, chunk_text_file, RepoPath, is_chunked, chunk_repo, Content, no_path, repo, file,
  chunk_inputs,
}

-- From a line on, chunks of a path that hold the lines, each once and in order, in blocks of at most so
-- many lines.
abbrev pub Tile : String → ℕ → List String → ℕ → List Chunk → Type 0
Tile path size lines start [] = start ≡ length lines
Tile path size lines start (c ∷ cs) =
    (c.path ≡ path)
    × (c.line_start ≡ start + 1)
    × (start < c.line_end)
    × (c.line_end ≤ start + size)
    × (c.content ≡ join_lines (take (c.line_end - start) (drop start lines)))
    × Tile path size lines c.line_end cs

take-min : {A : Type 0} (n : ℕ) (xs : List A) → take n xs ≡ take (min n (length xs)) xs
take-min n xs = elim (Bool-cases (ltb n (length xs))) [
  | inl shorter ↦ ap (λ k. take k xs) (ground arith)
  | inr longer ↦
      let size : min n (length xs) ≡ length xs = ground arith in
      rw size (take-short n xs (ground arith) ∙ sym (take-short (length xs) xs (omega arith)))
]

module _ (hash : String → String) (item : Input) (rel : String) (size : ℕ)
    (line_end : ℕ → List String → ℕ) (lines : List String)
    (ends : (idx : ℕ)
      → idx < length lines
      → line_end idx (take size (drop idx lines)) ≡ min (idx + size) (length lines)) where
  block_loop-Tile :
      (rounds idx : ℕ)
      → 1 ≤ size
      → length lines ≤ idx + rounds
      → Tile rel size lines
          (min idx (length lines))
          (block_loop hash item rel size line_end rounds idx lines)
  unfolding block_loop make_chunk
  block_loop-Tile zero idx some_lines enough = omega arith
  block_loop-Tile (suc rounds) idx some_lines enough = elim (Bool-cases (ltb idx (length lines))) [
    | inr over ↦ rw (over, block_loop) (ground arith)
    | inl more ↦
        let inside : idx < length lines = ground arith in
        let here : min idx (length lines) ≡ idx = omega arith in
        let end = ends idx inside in
        let held : take size (drop idx lines)
            ≡ take (min (idx + size) (length lines) - idx) (drop idx lines) =
          take-min size (drop idx lines)
          ∙ ap (λ k. take k (drop idx lines)) (omega (arith, length-drop idx lines)) in
        rw (more, block_loop, here, end)
          (
            refl,
            refl,
            omega arith,
            omega arith,
            ap join_lines held,
            block_loop-Tile rounds (idx + size) some_lines (omega arith),
          )
  ]

-- A text that is chunked: its path, the lines of a block and its lines.
pub record Text : Type 0 where
  pub path : String
  pub size : ℕ
  pub lines : List String

abbrev pub texts_of_input : List String → Input × Content → List Text
texts_of_input excluded (item, no_path) = []
texts_of_input excluded (item, repo paths) =
    map (λ (p : RepoPath). record { path = p.rel; size = 40; lines = p.lines })
      (keep (is_chunked excluded) paths)
texts_of_input excluded (item, file name lines) =
    record { path = name; size = if str_eq item.type "log" then 80 else 40; lines = lines } ∷ []

-- The texts of the inputs: the files, and those of the repositories that are not excluded.
abbrev pub texts_of : List String → List (Input × Content) → List Text
texts_of excluded [] = []
texts_of excluded (input ∷ discovered) =
    texts_of_input excluded input ++ texts_of excluded discovered

-- Chunks that tile texts, one after the other.
abbrev pub AreTiled : List Text → List Chunk → Type 0
AreTiled [] chunks = chunks ≡ []
AreTiled (t ∷ ts) chunks =
    (own : List Chunk) × (rest : List Chunk) × (chunks ≡ own ++ rest)
    × Tile t.path t.size t.lines 0 own
    × AreTiled ts rest

AreTiled-append :
    (ts us : List Text) (cs ds : List Chunk)
    → AreTiled ts cs
    → AreTiled us ds
    → AreTiled (ts ++ us) (cs ++ ds)
AreTiled-append [] us cs ds h k = rw h k
AreTiled-append (t ∷ ts) us cs ds (own, rest, whole, tiled, others) k = (
  own,
  rest ++ ds,
  ap (λ l. l ++ ds) whole ∙ append_assoc own rest ds,
  tiled,
  AreTiled-append ts us rest ds others k,
)

chunk_text_file-Tile :
    (hash : String → String) (item : Input) (name : String) (lines : List String)
    → Tile name
        (if str_eq item.type "log" then 80 else 40)
        lines
        0
        (chunk_text_file hash item name lines)
unfolding chunk_text_file
chunk_text_file-Tile hash item name lines =
    let size : ℕ = if str_eq item.type "log" then 80 else 40 in
    subst (λ start. Tile name size lines start (chunk_text_file hash item name lines)) (omega arith)
      (block_loop-Tile hash item name size (λ idx block. min (idx + size) (length lines)) lines
        (λ idx h. refl) (length lines) 0 (ground arith) (omega arith))

chunk_repo-AreTiled :
    (hash : String → String) (item : Input) (excluded : List String) (paths : List RepoPath)
    → AreTiled (texts_of_input excluded (item, repo paths)) (chunk_repo hash item excluded paths)
unfolding chunk_repo
chunk_repo-AreTiled hash item excluded [] = refl
chunk_repo-AreTiled hash item excluded (p ∷ ps) = elim (Bool-cases (is_chunked excluded p)) [
  | inr passed ↦
      rw (passed, chunk_repo)
        (rw (keep-false (is_chunked excluded) p ps passed)
          (chunk_repo-AreTiled hash item excluded ps))
  | inl kept ↦
      let own =
        block_loop hash item p.rel 40 (λ idx block. idx + length block) (length p.lines) 0
          p.lines in
      let ends : (idx : ℕ)
          → idx < length p.lines
          → idx + length (take 40 (drop idx p.lines)) ≡ min (idx + 40) (length p.lines) =
        λ idx h. omega (arith, length-take 40 (drop idx p.lines), length-drop idx p.lines) in
      rw (kept, chunk_repo)
        (rw (keep-true (is_chunked excluded) p ps kept) (
          own,
          chunk_repo hash item excluded ps,
          refl,
          subst (λ start. Tile p.rel 40 p.lines start own) (omega arith)
              (block_loop-Tile hash item p.rel 40 (λ idx block. idx + length block) p.lines ends
                (length p.lines) 0 (omega arith) (omega arith)),
          chunk_repo-AreTiled hash item excluded ps,
        ))
]

-- The chunks of the inputs tile their texts, one after the other: each text's chunks have its path, follow one
-- another from its first line to its last, have from one line to 40, or 80 in a log, and hold these lines.
pub chunk_inputs-AreTiled :
    (hash : String → String) (excluded : List String) (discovered : List (Input × Content))
    → AreTiled (texts_of excluded discovered) (chunk_inputs hash excluded discovered)
unfolding chunk_inputs
chunk_inputs-AreTiled hash excluded [] = refl
chunk_inputs-AreTiled hash excluded ((item, no_path) ∷ discovered) =
    chunk_inputs-AreTiled hash excluded discovered
chunk_inputs-AreTiled hash excluded ((item, repo paths) ∷ discovered) =
    AreTiled-append (texts_of_input excluded (item, repo paths)) (texts_of excluded discovered)
      (chunk_repo hash item excluded paths) (chunk_inputs hash excluded discovered)
      (chunk_repo-AreTiled hash item excluded paths)
      (chunk_inputs-AreTiled hash excluded discovered)
chunk_inputs-AreTiled hash excluded ((item, file name lines) ∷ discovered) = (
  chunk_text_file hash item name lines,
  chunk_inputs hash excluded discovered,
  refl,
  chunk_text_file-Tile hash item name lines,
  chunk_inputs-AreTiled hash excluded discovered,
)
