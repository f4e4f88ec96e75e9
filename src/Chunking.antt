-- ===== src/Chunking.antt =====
-- The cutting of a file into chunks: `_chunk_regions` and `_split_utf8_chunks` of
-- workers/rag-compression/inspection_index.py. Line numbers start at 1, and a marker is a line with the
-- symbol that starts there. A text is its list of UTF-8 bytes where it is cut by bytes.
mod Starts
pub mod Lines
pub mod Bytes
use Prim.Native.String
use local_ai_broker.Prelude.{
  ℕ, zero, suc, ◌+◌, ◌-◌, String, Bool, true, false, List, [], ◌∷◌, ◌++◌, ◌&&◌, leb, ltb, ◌==◌,
  if◌then◌else◌, min, max, take, drop, length, sort_by,
}
use local_ai_broker.Prelude.Text.{is_empty, strip}

pub record Window : Type 0 where
  pub line_start : ℕ
  pub line_end : ℕ
  pub symbol : String
  pub content : String

abbrev pub Marker : Type 0
Marker = ℕ × String

-- `starts_by_line[line] = symbol`, on the items in the order of insertion
unfoldable pub put : ℕ → String → List Marker → List Marker
put line symbol [] = (line, symbol) ∷ []
put line symbol (m ∷ ms) =
    let rest = put line symbol ms in if m.0 == line then (line, symbol) ∷ ms else m ∷ rest

unfoldable pub put_all : List Marker → List Marker → List Marker
put_all [] starts = starts
put_all (m ∷ ms) starts = put_all ms (put m.0 m.1 starts)

-- `sorted` on items of distinct lines
abbrev pub earlier : Marker → Marker → Bool
earlier a b = ltb a.0 b.0

-- `"\n".join(lines)`
unfoldable pub join_lines : List String → String
join_lines [] = ""
join_lines (l ∷ []) = l
join_lines (l ∷ m ∷ ls) = String.◌++◌ l (String.◌++◌ "\n" (join_lines (m ∷ ls)))

-- `"\n".join(lines[cursor - 1 : end])`
unfoldable pub content_of : List String → ℕ → ℕ → String
unfolding join_lines
content_of lines cursor end = join_lines (drop (cursor - 1) (take end lines))

-- `min(region_end, cursor + max_lines - 1)`
abbrev pub window_end : ℕ → ℕ → ℕ → ℕ
window_end max_lines cursor region_end = min region_end (cursor + max_lines - 1)

-- `max(cursor + 1, end - overlap + 1)`
abbrev pub next_cursor : ℕ → ℕ → ℕ → ℕ
next_cursor overlap cursor end = max (cursor + 1) (end + 1 - overlap)

-- `if content.strip(): yield cursor, end, symbol, content`, before what is yielded later.
unfoldable pub emit : List String → ℕ → ℕ → String → List Window → List Window
emit lines cursor end symbol rest =
    let content = content_of lines cursor end in
    if is_empty (strip content)
    then rest
    else record { line_start = cursor; line_end = end; symbol = symbol; content = content } ∷ rest

-- `starts[index + 1][0] - 1 if index + 1 < len(starts) else len(lines)`
abbrev pub region_end_of : List String → List Marker → ℕ
region_end_of lines [] = length lines
region_end_of lines (m ∷ ms) = m.0 - 1

module _ (lines : List String) (max_lines overlap : ℕ) where
  -- The `while` loop. Each round raises the cursor, so the lines left are fuel enough.
  unfoldable pub region_loop : ℕ → ℕ → ℕ → String → List Window
  region_loop zero cursor region_end symbol = []
  region_loop (suc fuel) cursor region_end symbol =
      let end = window_end max_lines cursor region_end in
      let later = region_loop fuel (next_cursor overlap cursor end) region_end symbol in
      if leb cursor region_end
      then emit lines cursor end symbol (if leb region_end end then [] else later)
      else []

  unfoldable pub regions : List Marker → List Window
  regions [] = []
  regions (m ∷ ms) =
      region_loop (region_end_of lines ms + 1 - m.0) m.0 (region_end_of lines ms) m.1 ++ regions ms

  unfoldable pub chunk_regions : List Marker → List Window
  unfolding put_all
  chunk_regions markers = regions (sort_by earlier (put_all markers ((1, "") ∷ [])))

-- `encoded[end] & 0xC0 == 0x80`
abbrev pub is_continuation : ℕ → Bool
is_continuation byte = leb 0x80 byte && ltb byte 0xc0

-- `while end > start and …: end -= 1`, on the bytes from `start` on.
unfoldable pub back_off : List ℕ → ℕ → ℕ
back_off bytes zero = zero
back_off bytes (suc k) =
    let rest = back_off bytes k in
    elim (drop (suc k) bytes) [
      | [] ↦ suc k
      | byte ∷ _ ↦ if is_continuation byte then rest else suc k
    ]

-- The length of the next chunk.
unfoldable pub cut : ℕ → List ℕ → ℕ
unfolding back_off
cut max_bytes bytes =
    let end = min (length bytes) max_bytes in
    let kept = if ltb end (length bytes) then back_off bytes end else end in
    if kept == 0 then end else kept

-- Each round takes a byte at least, so the number of bytes is fuel enough.
unfoldable pub split_loop : ℕ → ℕ → List ℕ → List (List ℕ)
unfolding cut
split_loop zero max_bytes bytes = []
split_loop (suc fuel) max_bytes [] = []
split_loop (suc fuel) max_bytes (b ∷ bytes) =
    let end = cut max_bytes (b ∷ bytes) in
    take end (b ∷ bytes) ∷ split_loop fuel max_bytes (drop end (b ∷ bytes))

unfoldable pub split_utf8_chunks : ℕ → List ℕ → List (List ℕ)
unfolding split_loop
split_utf8_chunks max_bytes encoded =
    if leb (length encoded) max_bytes
    then encoded ∷ []
    else split_loop (length encoded) max_bytes encoded
