-- ===== src/Service.antt =====
-- The service records of the GPU registry, as workers/gpu-service/main.py writes them and
-- workers/rag-compression/gpu_client.py reads them. A missing key, `None` and the empty text are one
-- value here, since every reader writes
-- `record.get(key) or ""`; `gpu_count` is `gpu.count or gpu_count or 0`, and so `gpu_type`.
use local_ai_broker.Prelude.{ℕ, String, Bool, Option, none, List, if◌then◌else◌, ◌==◌}
use local_ai_broker.Prelude.Text.{is_empty}

-- A timestamp: its text, and the instant that `datetime.fromisoformat` reads in it, in microseconds from
-- the first of January of the year 1; none where it refuses the text.
pub record Stamp : Type 0 where
  pub text : String
  pub time : Option ℕ

abbrev pub no_stamp : Stamp
no_stamp = record { text = ""; time = none }

-- A URL and the parts that `urllib.parse.urlparse` finds; an absent host is the empty text.
pub record Url : Type 0 where
  pub text : String
  pub scheme : String
  pub hostname : String

-- A list of names, or one name alone.
pub data Names : Type 0 where
  one : String → Names
  many : List String → Names

pub record Service : Type 0 where
  pub id : String
  pub tier : String
  pub state : String
  pub healthy : Option Bool
  pub health_error : String
  pub failure_category : String
  pub endpoint : Url
  pub base_url : Url
  pub auth_type : String
  pub bearer_token : String
  pub registration_token_sha256 : String
  pub created_at : Stamp
  pub startup_deadline : Stamp
  pub heartbeat_at : Stamp
  pub lease_expires_at : Stamp
  pub lease_expires : Stamp
  pub absolute_lease_expires_at : Stamp
  pub last_health_check_at : Stamp
  pub capabilities : Names
  pub operations : Names
  pub gpu_type : String
  pub gpu_count : ℕ
  pub model_profile : String
  pub model : String
  pub slurm_job_id : String
  pub job_id : String
  pub context_limit_tokens : ℕ

-- The first instant of the year 2: a time before it has `year <= 1`.
abbrev pub year_two : ℕ
year_two = 31536000000000

abbrev pub second : ℕ
second = 1000000

abbrev pub or_stamp : Stamp → Stamp → Stamp
or_stamp a b = if is_empty a.text then b else a

abbrev pub or_number : ℕ → ℕ → ℕ
or_number a b = if a == 0 then b else a
