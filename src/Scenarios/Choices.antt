-- ===== src/Scenarios/Choices.antt =====
-- The choice of evidence chunks and of an endpoint, at concrete inputs.
use local_ai_broker.Prelude.{
  ℕ, ◌≤◌, ◌<◌, ◌*◌, String, Option, none, some, List, [], ◌∷◌, ◌≡◌, refl, All, length, max,
  if◌then◌else◌, str_eq, eq_iff, arith,
}
use local_ai_broker.Service.{Service, second}
use local_ai_broker.Endpoint.{select_endpoint}
use local_ai_broker.Selection.{
  Chunk, Ranked, ChunkMap, select_diverse_chunks, scan, visit, skips, add, per_chunk_budget,
}
use local_ai_broker.Selection.Diversity.{IsKeyed, IsDiverse, select_diverse_chunks-IsDiverse}
use local_ai_broker.Selection.Coverage.{IsSettled, select_diverse_chunks-covers}
use local_ai_broker.Scenarios.Leases.{published, reservation}

abbrev chunk : String → String → String → Chunk
chunk id path hash = record {
  chunk_id = id;
  source_namespace = "repo";
  content_hash = hash;
  path = path;
  language = "python";
  symbol = "";
  input_id = "i";
  line_start = 1;
  line_end = 20;
  content = "x = 1";
  token_estimate = 80;
}

-- Three chunks of one file, one of another, and one with the content of the first.
abbrev chunks : ChunkMap
chunks id =
    if str_eq id "a1"
    then some (chunk "a1" "a.py" "h1")
    else if str_eq id "a2"
    then some (chunk "a2" "a.py" "h2")
    else if str_eq id "a3"
    then some (chunk "a3" "a.py" "h3")
    else if str_eq id "b1"
    then some (chunk "b1" "b.py" "h4")
    else if str_eq id "c1"
    then some (chunk "c1" "c.py" "h1")
    else none

abbrev ranked_as : String → ℕ → Ranked
ranked_as id rank = record { chunk_id = id; rank = rank }

abbrev ranking : List Ranked
ranking =
    ranked_as "a1" 1
    ∷ ranked_as "a2" 2
    ∷ ranked_as "a3" 3
    ∷ ranked_as "c1" 4
    ∷ ranked_as "b1" 5
    ∷ ranked_as "zz" 6
    ∷ []

chunks-IsKeyed : IsKeyed chunks
chunks-IsKeyed id found h =
    ground (arith, eq_iff id "a1", eq_iff id "a2", eq_iff id "a3", eq_iff id "b1", eq_iff id "c1")

selects_three :
    (select_diverse_chunks chunks [] 1000 8 ranking).selected
    ≡ ranked_as "a1" 1 ∷ ranked_as "b1" 5 ∷ ranked_as "a2" 2 ∷ []
unfolding select_diverse_chunks scan visit skips add per_chunk_budget
selects_three = refl

select_diverse_chunks-IsDiverse_example :
    IsDiverse chunks [] 1000 8 (select_diverse_chunks chunks [] 1000 8 ranking)
select_diverse_chunks-IsDiverse_example =
    select_diverse_chunks-IsDiverse chunks [] 1000 8 chunks-IsKeyed ranking

select_diverse_chunks-covers_example :
    (length (select_diverse_chunks chunks [] 1000 8 ranking).selected ≤ max 1 8)
    × (length (select_diverse_chunks chunks [] 1000 8 ranking).selected < 8
        → All (IsSettled chunks [] 1000 8 (select_diverse_chunks chunks [] 1000 8 ranking)) ranking)
select_diverse_chunks-covers_example = select_diverse_chunks-covers chunks [] 1000 8 ranking

abbrev services : List Service
services = reservation "a" "starting" ∷ published ∷ []

abbrev chosen : Option Service
chosen = select_endpoint (1110 * second) (15 * second) services "p40-synthesis" "chat" (some 1)
