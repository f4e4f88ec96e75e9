-- ===== src/Scenarios/Texts.antt =====
-- Budgets, chunks and evidence at concrete inputs.
use local_ai_broker.Prelude.{
  ℕ, ◌≤◌, ◌+◌, ◌-◌, String, true, List, [], ◌∷◌, length, sort_by, ◌≡◌, refl, arith, All, ◌⊎◌, ◌↔◌,
}
use local_ai_broker.Prelude.Int.{pos}
use local_ai_broker.Prelude.Text.{rstrip, lstrip, strip}
use local_ai_broker.Prelude.Result.{ok}
use local_ai_broker.Contract.{
  Constraints, TokenBudgets, missing, int, minimum_pack, validate_constraints,
  normalize_token_budgets, check_final_pack, check_runtime, positive_int,
}
use local_ai_broker.Contract.Budgets.{IsPositive, validated_budgets}
use local_ai_broker.Chunking.{
  Marker, chunk_regions, split_utf8_chunks, put, put_all, regions, region_loop, emit, content_of,
  join_lines, split_loop, cut, back_off,
}
use local_ai_broker.Chunking.Lines.{IsWithin, IsChunk, Covers, chunk_regions-Covers}
use local_ai_broker.Chunking.Bytes.{concat, IsPiece, split_utf8_chunks-IsPiece}
use local_ai_broker.Evidence.{
  Item, trim_evidence_for_final_pack, enforce_final_pack_budget, trim_loop, trim_step, rounds,
  longest,
}
use local_ai_broker.Prelude.Text.{text_length}
use local_ai_broker.Evidence.Trim.{IsPrefix, trim_evidence_for_final_pack-fits}
use local_ai_broker.Evidence.Pack.{IsLongest, enforce_final_pack_budget-IsLongest}

abbrev constraints : Constraints
constraints = record {
  retrieval_token_budget = missing;
  retrieved_chunk_budget = int (pos 24000);
  evidence_token_budget = missing;
  final_evidence_pack_budget = int (pos 9000);
  final_pack_token_budget = missing;
  synthesis_context_token_budget = missing;
  remote_model_context_budget = missing;
  max_runtime_seconds = int (pos 600);
}

abbrev budgets : TokenBudgets
budgets = record {
  retrieval_token_budget = 24000;
  evidence_token_budget = 9000;
  final_pack_token_budget = 9000;
  synthesis_context_token_budget = 16000;
}

constraints_validate : validate_constraints constraints "answer" ≡ ok tt
unfolding validate_constraints check_final_pack check_runtime minimum_pack
constraints_validate = refl

constraints_normalize : normalize_token_budgets constraints ≡ ok budgets
unfolding normalize_token_budgets positive_int
constraints_normalize = refl

validated_budgets_example :
    IsPositive budgets × (minimum_pack "answer" ≤ budgets.final_pack_token_budget)
validated_budgets_example =
    validated_budgets constraints "answer" budgets constraints_validate constraints_normalize

abbrev program : List String
program = "import os" ∷ "" ∷ "def main():" ∷ "    a = 1" ∷ "    return a" ∷ []

abbrev markers : List Marker
markers = (3, "main") ∷ []

chunk_regions_windows :
    chunk_regions program 2 1 markers
    ≡ record { line_start = 1; line_end = 2; symbol = ""; content = "import os\n" }
      ∷ record { line_start = 3; line_end = 4; symbol = "main"; content = "def main():\n    a = 1" }
      ∷ record {
        line_start = 4;
        line_end = 5;
        symbol = "main";
        content = "    a = 1\n    return a";
      }
      ∷ []
unfolding chunk_regions put_all put regions region_loop emit content_of join_lines strip lstrip
    rstrip sort_by
chunk_regions_windows = refl

chunk_regions-Covers_example :
    All (IsChunk program 2 1) (chunk_regions program 2 1 markers)
    × ((line : ℕ)
        → IsWithin 1 (length program) line
        → Covers program 2 1 line (chunk_regions program 2 1 markers))
chunk_regions-Covers_example = chunk_regions-Covers program 2 1 markers (omega arith)

-- Two letters of one byte, one of two bytes, and one of three.
abbrev bytes : List ℕ
bytes = 0x61 ∷ 0x62 ∷ 0xc3 ∷ 0xa9 ∷ 0xe2 ∷ 0x82 ∷ 0xac ∷ []

split_utf8_chunks_pieces :
    split_utf8_chunks 5 bytes ≡ (0x61 ∷ 0x62 ∷ 0xc3 ∷ 0xa9 ∷ []) ∷ (0xe2 ∷ 0x82 ∷ 0xac ∷ []) ∷ []
unfolding split_utf8_chunks split_loop cut back_off
split_utf8_chunks_pieces = refl

split_utf8_chunks-IsPiece_example :
    (concat (split_utf8_chunks 5 bytes) ≡ bytes) × All (IsPiece 5) (split_utf8_chunks 5 bytes)
split_utf8_chunks-IsPiece_example =
    split_utf8_chunks-IsPiece 5 bytes (omega arith) (omega arith) refl

abbrev item : String → String → Item
item id excerpt = record { id = id; excerpt = excerpt }

abbrev evidence : List Item
evidence = item "ev_001" "def main(): return 1" ∷ item "ev_002" "def other(): return 2" ∷ []

-- Ten tokens an item.
abbrev pack_size : List Item → ℕ
pack_size [] = 0
pack_size (x ∷ xs) = pack_size xs + 10

trim_drops_one :
    trim_evidence_for_final_pack pack_size evidence 20 5 ≡ item "ev_001" "def main(): return 1" ∷ []
unfolding trim_evidence_for_final_pack trim_loop trim_step rounds longest text_length
trim_drops_one = refl

trim_evidence_for_final_pack-fits_example :
    ((trim_evidence_for_final_pack pack_size evidence 20 5 ≡ [])
      ⊎ (pack_size (trim_evidence_for_final_pack pack_size evidence 20 5) ≤ 20 - 5))
    × IsPrefix (trim_evidence_for_final_pack pack_size evidence 20 5) evidence
trim_evidence_for_final_pack-fits_example =
    trim_evidence_for_final_pack-fits pack_size evidence 20 5

enforce_final_pack_budget-IsLongest_example :
    IsLongest pack_size 15 evidence (enforce_final_pack_budget pack_size evidence 15).kept
    × ((enforce_final_pack_budget pack_size evidence 15).budget_ok ≡ true
        ↔ pack_size (enforce_final_pack_budget pack_size evidence 15).kept ≤ 15)
    × (length (enforce_final_pack_budget pack_size evidence 15).kept
          + (enforce_final_pack_budget pack_size evidence 15).trimmed_evidence_count
        ≡ length evidence)
enforce_final_pack_budget-IsLongest_example =
    enforce_final_pack_budget-IsLongest pack_size 15 evidence (omega arith)
