-- ===== src/Config/Loading.antt =====
-- app/core/config.py: the settings that are written to the environment are those that are read.
use rag_semantic_search.Prelude.{
  ℕ, ◌*◌, ◌≡◌, sym, ap, ◌∙◌, ◌⊎◌, inl, inr, false, Option, some, none, String, ◌++◌,
}
use rag_semantic_search.Config.{Settings}
use rag_semantic_search.Utf8.{Text}
use rag_semantic_search.Http.{decimal}
use rag_semantic_search.Http.Decimals.{int-decimal}
use rag_semantic_search.Config.Environment.{
  Environ, Configuration, value, codes, int_or, int_env, bool_env, text_or, load,
}

-- A variable that holds a number in decimal, or that is not set and has the number as its default.
abbrev Holds : Environ → String → ℕ → ℕ → Type 0
Holds environ name default n =
    (environ name ≡ some (codes (decimal n))) ⊎ ((environ name ≡ none) × (n ≡ default))

int_env-Holds :
    (environ : Environ) (name : String) (default n : ℕ)
    → Holds environ name default n
    → int_env environ name default ≡ value n
unfolding int_env
int_env-Holds environ name default n (inl set) = ap (int_or default) set ∙ int-decimal n
int_env-Holds environ name default n (inr (unset, e)) = ap (int_or default) unset ∙ ap value (sym e)

-- An environment with these numbers.
pub record Written (environ : Environ) (c : Settings) (embed_batch_size : ℕ) : Type 0 where
  pub max_chunk_bytes : Holds environ "MAX_CHUNK_BYTES" (16 * 1024 * 1024) c.max_chunk_bytes
  pub max_file_bytes : Holds environ "MAX_FILE_BYTES" (10 * 1024 * 1024 * 1024) c.max_file_bytes
  pub max_concurrent_uploads : Holds environ "MAX_CONCURRENT_UPLOADS" 50 c.max_concurrent_uploads
  pub passage_target_bytes : Holds environ "PASSAGE_TARGET_BYTES" 600 c.passage_target_bytes
  pub passage_max_bytes : Holds environ "PASSAGE_MAX_BYTES" 2048 c.passage_max_bytes
  pub passage_overlap_bytes : Holds environ "PASSAGE_OVERLAP_BYTES" 120 c.passage_overlap_bytes
  pub index_memory_budget_bytes :
      Holds environ "INDEX_MEMORY_BUDGET_BYTES" (1024 * 1024 * 1024) c.index_memory_budget_bytes
  pub passage_max_target_bytes :
      Holds environ "PASSAGE_MAX_TARGET_BYTES" 6000 c.passage_max_target_bytes
  pub embedding_dim : Holds environ "EMBEDDING_DIM" 384 c.embedding_dim
  pub embed_batch : Holds environ "EMBED_BATCH_SIZE" 32 embed_batch_size
  pub worker_count : Holds environ "WORKER_COUNT" 2 c.worker_count
  pub quantization_always_ram :
      bool_env environ "QUANTIZATION_ALWAYS_RAM" false ≡ c.quantization_always_ram
  pub claim_batch_size : Holds environ "CLAIM_BATCH_SIZE" 32 c.claim_batch_size
  pub max_retries : Holds environ "MAX_RETRIES" 3 c.max_retries
  pub default_top_k : Holds environ "DEFAULT_TOP_K" 5 c.default_top_k
  pub max_top_k : Holds environ "MAX_TOP_K" 20 c.max_top_k

-- The constants with these settings; the texts are those of the environment.
abbrev pub constants :
    {Float : Type 0} → (Text → Text) → Environ → Settings → ℕ → Float → Configuration Float
constants resolve environ c embed_batch_size seconds = record {
  settings = c;
  data_dir = resolve (text_or (codes "data") (environ "DATA_DIR"));
  upload_dir = resolve (text_or (codes "data") (environ "DATA_DIR")) ++ codes "/uploads";
  db_path = resolve (text_or (codes "data") (environ "DATA_DIR")) ++ codes "/metadata.db";
  embedding_model =
      text_or (codes "sentence-transformers/all-MiniLM-L6-v2") (environ "EMBEDDING_MODEL");
  embed_batch_size = embed_batch_size;
  qdrant_url = text_or (codes "http://localhost:6333") (environ "QDRANT_URL");
  worker_poll_seconds = seconds;
}

-- Settings that the environment holds in decimal, or that it leaves to their defaults, are read as
-- they are, where `float` reads the time between polls and the flag is what `_bool_env` gives; the
-- texts are those of the environment.
pub load-Written :
    {Float : Type 0} (float : Text → Option Float) (resolve : Text → Text) (environ : Environ)
    (c : Settings) (embed_batch_size : ℕ) (seconds : Float)
    → Written environ c embed_batch_size
    → float (text_or (codes "0.5") (environ "WORKER_POLL_SECONDS")) ≡ some seconds
    → load float resolve environ ≡ value (constants resolve environ c embed_batch_size seconds)
unfolding load
load-Written float resolve environ c embed_batch_size seconds w polls =
    rw
      (
        int_env-Holds environ "MAX_CHUNK_BYTES" _ _ w.max_chunk_bytes,
        int_env-Holds environ "MAX_FILE_BYTES" _ _ w.max_file_bytes,
        int_env-Holds environ "MAX_CONCURRENT_UPLOADS" _ _ w.max_concurrent_uploads,
        int_env-Holds environ "PASSAGE_TARGET_BYTES" _ _ w.passage_target_bytes,
        int_env-Holds environ "PASSAGE_MAX_BYTES" _ _ w.passage_max_bytes,
        int_env-Holds environ "PASSAGE_OVERLAP_BYTES" _ _ w.passage_overlap_bytes,
        int_env-Holds environ "INDEX_MEMORY_BUDGET_BYTES" _ _ w.index_memory_budget_bytes,
        int_env-Holds environ "PASSAGE_MAX_TARGET_BYTES" _ _ w.passage_max_target_bytes,
        int_env-Holds environ "EMBEDDING_DIM" _ _ w.embedding_dim,
        int_env-Holds environ "EMBED_BATCH_SIZE" _ _ w.embed_batch,
        int_env-Holds environ "WORKER_COUNT" _ _ w.worker_count,
        int_env-Holds environ "CLAIM_BATCH_SIZE" _ _ w.claim_batch_size,
        int_env-Holds environ "MAX_RETRIES" _ _ w.max_retries,
        polls,
        int_env-Holds environ "DEFAULT_TOP_K" _ _ w.default_top_k,
        int_env-Holds environ "MAX_TOP_K" _ _ w.max_top_k,
      )
      (ap
        (λ flag.
          let settings : Settings = record c { quantization_always_ram = flag } in
          value (constants resolve environ settings embed_batch_size seconds))
        w.quantization_always_ram)
