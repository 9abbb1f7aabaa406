-- ===== src/Config.antt =====
-- app/core/config.py: the settings that come from the environment, as a record, and their defaults.
pub mod Sizing
pub mod Environment
pub mod Loading
use rag_semantic_search.Prelude.{ℕ, ◌*◌, Bool, false}

pub record Settings : Type 0 where
  pub max_chunk_bytes : ℕ
  pub max_file_bytes : ℕ
  pub max_concurrent_uploads : ℕ
  pub passage_target_bytes : ℕ
  pub passage_max_bytes : ℕ
  pub passage_overlap_bytes : ℕ
  pub index_memory_budget_bytes : ℕ
  pub passage_max_target_bytes : ℕ
  pub embedding_dim : ℕ
  pub quantization_always_ram : Bool
  pub claim_batch_size : ℕ
  pub max_retries : ℕ
  pub worker_count : ℕ
  pub default_top_k : ℕ
  pub max_top_k : ℕ

-- What `_int_env` and `_bool_env` give when no environment variable is set.
abbrev pub defaults : Settings
defaults = record {
  max_chunk_bytes = 16 * 1024 * 1024;
  max_file_bytes = 10 * 1024 * 1024 * 1024;
  max_concurrent_uploads = 50;
  passage_target_bytes = 600;
  passage_max_bytes = 2048;
  passage_overlap_bytes = 120;
  index_memory_budget_bytes = 1024 * 1024 * 1024;
  passage_max_target_bytes = 6000;
  embedding_dim = 384;
  quantization_always_ram = false;
  claim_batch_size = 32;
  max_retries = 3;
  worker_count = 2;
  default_top_k = 5;
  max_top_k = 20;
}
