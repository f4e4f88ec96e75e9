-- ===== src/Chunking/Lines.antt =====
-- The windows of `_chunk_regions` reach every line of the file.
use local_ai_broker.Prelude.{
  ℕ, zero, suc, ◌+◌, ◌-◌, ◌≤◌, ◌<◌, String, Bool, true, false, List, [], ◌∷◌, ◌++◌, leb, ltb,
  if◌then◌else◌, length, sort_by, ◌≡◌, refl, arith, All, ◌⊎◌, inl, inr, Bool-cases,
}
use local_ai_broker.Prelude.Text.{is_empty, strip}
use local_ai_broker.Prelude.Membership.{In, In-append-left, In-append-right}
use local_ai_broker.Chunking.Starts.{First, First-early}
use local_ai_broker.Chunking.{
  Window, Marker, put_all, earlier, content_of, window_end, next_cursor, region_loop, region_end_of,
  regions, chunk_regions, emit,
}

abbrev pub IsWithin : ℕ → ℕ → ℕ → Type 0
IsWithin first last line = (first ≤ line) × (line ≤ last)

module _ (lines : List String) (max_lines overlap : ℕ) where
  -- The line stands in a chunk, or in a window that is dropped since it is white space only.
  abbrev pub Covers : ℕ → List Window → Type 0
  Covers line windows =
      ((w : Window) × In w windows × IsWithin w.line_start w.line_end line)
      ⊎ ((first : ℕ) × (last : ℕ) × IsWithin first last line
          × (is_empty (strip (content_of lines first last)) ≡ true))

  -- What every chunk is.
  pub record IsChunk (w : Window) : Type 0 where
    pub ordered : w.line_start ≤ w.line_end
    pub short : w.line_end < w.line_start + max_lines
    pub cut : content_of lines w.line_start w.line_end ≡ w.content
    pub visible : is_empty (strip w.content) ≡ false

  emit-IsChunk :
      (cursor end : ℕ) (symbol : String) (rest : List Window)
      → cursor ≤ end
      → end < cursor + max_lines
      → All IsChunk rest
      → All IsChunk (emit lines cursor end symbol rest)
  unfolding emit
  emit-IsChunk cursor end symbol rest o m h =
      elim (Bool-cases (is_empty (strip (content_of lines cursor end)))) [
        | inl blank ↦ rw (blank, emit) h
        | inr visible ↦
            rw (visible, emit) (record { ordered = o; short = m; cut = refl; visible = visible }, h)
      ]

  All-if : (b : Bool) (ws : List Window) → All IsChunk ws → All IsChunk (if b then [] else ws)
  All-if true ws h = tt
  All-if false ws h = h

  region_loop-IsChunk :
      (fuel cursor region_end : ℕ) (symbol : String)
      → 1 ≤ max_lines
      → All IsChunk (region_loop lines max_lines overlap fuel cursor region_end symbol)
  unfolding region_loop
  region_loop-IsChunk zero cursor region_end symbol m = tt
  region_loop-IsChunk (suc fuel) cursor region_end symbol m =
      let end = window_end max_lines cursor region_end in
      let rest =
        region_loop lines max_lines overlap fuel (next_cursor overlap cursor end) region_end
          symbol in
      let later = region_loop-IsChunk fuel (next_cursor overlap cursor end) region_end symbol m in
      elim (Bool-cases (leb cursor region_end)) [
        | inr over ↦ rw (over, region_loop) tt
        | inl inside ↦
            rw (inside, region_loop)
              (emit-IsChunk cursor end symbol (if leb region_end end then [] else rest)
                (ground arith) (ground arith) (All-if (leb region_end end) rest later))
      ]

  -- A window that is emitted covers its lines, and what is emitted later covers what it covers.
  emit-Covers :
      (cursor end : ℕ) (symbol : String) (rest : List Window) (line : ℕ)
      → IsWithin cursor end line ⊎ Covers line rest
      → Covers line (emit lines cursor end symbol rest)
  unfolding emit
  emit-Covers cursor end symbol rest line h =
      elim (Bool-cases (is_empty (strip (content_of lines cursor end)))) [
        | inl blank ↦
            rw (blank, emit)
              (elim h [ inl here ↦ inr (cursor, end, here, blank) | inr there ↦ there ])
        | inr visible ↦
            rw (visible, emit)
              (elim h [
                | inl here ↦ inl (_, inl refl, here)
                | inr there ↦ elim there [
                  | inl (w, place, within) ↦ inl (w, inr place, within)
                  | inr dropped ↦ inr dropped
                ]
              ])
      ]

  if-Covers :
      (b : Bool) (ws : List Window) (line : ℕ)
      → b ≡ false
      → Covers line ws
      → Covers line (if b then [] else ws)
  if-Covers b ws line e h = rw e h

  region_loop-Covers :
      (fuel cursor region_end : ℕ) (symbol : String) (line : ℕ)
      → 1 ≤ max_lines
      → region_end < fuel + cursor
      → IsWithin cursor region_end line
      → Covers line (region_loop lines max_lines overlap fuel cursor region_end symbol)
  unfolding region_loop
  region_loop-Covers zero cursor region_end symbol line m f w = absurd (omega arith)
  region_loop-Covers (suc fuel) cursor region_end symbol line m f w =
      let end = window_end max_lines cursor region_end in
      let rest =
        region_loop lines max_lines overlap fuel (next_cursor overlap cursor end) region_end
          symbol in
      let inside : leb cursor region_end ≡ true = ground arith in
      rw (inside, region_loop)
        (emit-Covers cursor end symbol (if leb region_end end then [] else rest) line
          (elim (Bool-cases (leb line end)) [
            | inl here ↦ inl (ground arith)
            | inr there ↦ inr (
                if-Covers (leb region_end end) rest line (ground arith) (
                  region_loop-Covers fuel (next_cursor overlap cursor end) region_end symbol line m
                    (omega arith) (ground arith)))
          ]))

  Covers-append-left : (line : ℕ) (ws vs : List Window) → Covers line ws → Covers line (ws ++ vs)
  Covers-append-left line ws vs (inl (w, place, within)) =
      inl (w, In-append-left w ws vs place, within)
  Covers-append-left line ws vs (inr dropped) = inr dropped

  Covers-append-right : (line : ℕ) (ws vs : List Window) → Covers line vs → Covers line (ws ++ vs)
  Covers-append-right line ws vs (inl (w, place, within)) =
      inl (w, In-append-right w ws vs place, within)
  Covers-append-right line ws vs (inr dropped) = inr dropped

  All-append : (ws vs : List Window) → All IsChunk ws → All IsChunk vs → All IsChunk (ws ++ vs)
  All-append [] vs h k = k
  All-append (w ∷ ws) vs h k = (h.0, All-append ws vs h.1 k)

  regions-IsChunk :
      (ms : List Marker) → 1 ≤ max_lines → All IsChunk (regions lines max_lines overlap ms)
  unfolding regions
  regions-IsChunk [] m = tt
  regions-IsChunk (x ∷ ms) m =
      All-append _ _
        (region_loop-IsChunk (region_end_of lines ms + 1 - x.0) x.0 (region_end_of lines ms) x.1 m)
        (regions-IsChunk ms m)

  -- The regions cover the lines from the first marker on.
  regions-Covers :
      (x : Marker) (ms : List Marker) (line : ℕ)
      → 1 ≤ max_lines
      → 1 ≤ line
      → IsWithin x.0 (length lines) line
      → Covers line (regions lines max_lines overlap (x ∷ ms))
  unfolding regions
  regions-Covers x [] line m p w =
      Covers-append-left line _ _
        (region_loop-Covers (length lines + 1 - x.0) x.0 (length lines) x.1 line m (omega arith) w)
  regions-Covers x (y ∷ ms) line m p w = elim (Bool-cases (ltb line y.0)) [
    | inl before ↦ Covers-append-left line _ _ (
        region_loop-Covers (y.0 - 1 + 1 - x.0) x.0 (y.0 - 1) x.1 line m (ground arith)
          (ground arith))
    | inr after ↦ Covers-append-right line _ _ (regions-Covers y ms line m p (ground arith))
  ]

  -- With windows of one line at least, each chunk is of `max_lines` lines at most, in order, and holds the
  -- text of its lines, which is not white space only; and every line of the file stands in a chunk, or in
  -- a range of lines that are together white space.
  pub chunk_regions-Covers :
      (markers : List Marker)
      → 1 ≤ max_lines
      → All IsChunk (chunk_regions lines max_lines overlap markers)
        × ((line : ℕ)
            → IsWithin 1 (length lines) line
            → Covers line (chunk_regions lines max_lines overlap markers))
  unfolding chunk_regions
  chunk_regions-Covers markers m = (
    regions-IsChunk (sort_by earlier (put_all markers ((1, "") ∷ []))) m,
    λ line w.
        sorted-Covers (sort_by earlier (put_all markers ((1, "") ∷ []))) (First-early markers) line
          w,
  )
    where
      sorted-Covers :
          (ms : List Marker)
          → First ms
          → (line : ℕ) → IsWithin 1 (length lines) line
          → Covers line (regions lines max_lines overlap ms)
      sorted-Covers [] e line w = absurd e
      sorted-Covers (x ∷ ms) e line w = regions-Covers x ms line m w.0 (omega arith)
