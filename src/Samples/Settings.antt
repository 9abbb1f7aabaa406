-- ===== src/Samples/Settings.antt =====
-- Settings from an environment.
use rag_semantic_search.Prelude.{
  ℕ, ◌≡◌, refl, inl, inr, true, false, none, some, str_eq, if◌then◌else◌,
}
use rag_semantic_search.Config.{defaults}
use rag_semantic_search.Config.Environment.{
  Environ, value, value_error, negative, codes, int, bool_env, load,
}
use rag_semantic_search.Config.Loading.{constants, load-Written}
use rag_semantic_search.Http.{decimal}

spaced : int (codes " +1_000 ") ≡ value 1000
unfolding int
spaced = refl

doubled_underscore : int (codes "1__0") ≡ value_error
unfolding int
doubled_underscore = refl

below_zero : int (codes "-3") ≡ negative
unfolding int
below_zero = refl

abbrev environ : Environ
environ name =
    if str_eq name "MAX_RETRIES"
    then some (codes "5")
    else if str_eq name "QUANTIZATION_ALWAYS_RAM"
    then some (codes "Yes")
    else none

always_ram : bool_env environ "QUANTIZATION_ALWAYS_RAM" false ≡ true
unfolding bool_env
always_ram = refl

load-Written_example :
    load {Float = ℕ} (λ s. some 2) (λ path. path) environ
    ≡ value (
        constants
          (λ path. path)
          environ
          (record defaults { max_retries = 5; quantization_always_ram = true })
          32
          2)
unfolding decimal
load-Written_example =
    load-Written (λ s. some 2) (λ path. path) environ
      (record defaults { max_retries = 5; quantization_always_ram = true }) 32 2
      (record {
        max_chunk_bytes = inr (refl, refl);
        max_file_bytes = inr (refl, refl);
        max_concurrent_uploads = inr (refl, refl);
        passage_target_bytes = inr (refl, refl);
        passage_max_bytes = inr (refl, refl);
        passage_overlap_bytes = inr (refl, refl);
        index_memory_budget_bytes = inr (refl, refl);
        passage_max_target_bytes = inr (refl, refl);
        embedding_dim = inr (refl, refl);
        embed_batch = inr (refl, refl);
        worker_count = inr (refl, refl);
        quantization_always_ram = always_ram;
        claim_batch_size = inr (refl, refl);
        max_retries = inl refl;
        default_top_k = inr (refl, refl);
        max_top_k = inr (refl, refl);
      })
      refl
