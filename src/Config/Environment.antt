-- ===== src/Config/Environment.antt =====
-- app/core/config.py: the settings, read from the environment. A value is its code points; what it
-- holds of the digits outside ASCII, which `int` takes too, is not modelled, nor Python's limit of 4300
-- digits. `float` is a parameter.
use Prim.Native.Char.{code}
use rag_semantic_search.Prelude.{
  ℕ, ◌+◌, ◌-◌, ◌*◌, Bool, true, false, ◌&&◌, ◌||◌, Option, none, some, [], ◌∷◌, ◌++◌, map, String,
  leb, ◌==◌, if◌then◌else◌,
}
use rag_semantic_search.Config.{Settings}
use rag_semantic_search.Utf8.{Text}

-- A value that is read, the ValueError of `int` or `float`, or a negative number, which `Settings` does
-- not hold.
pub data Read {ℓ} (A : Type ℓ) : Type ℓ where
  value : A → Read A
  value_error : Read A
  negative : Read A

infixl 5 ◌>>=◌
abbrev pub ◌>>=◌ {ℓ κ} : {A : Type ℓ} {B : Type κ} → Read A → (A → Read B) → Read B
value a >>= f = f a
value_error >>= f = value_error
negative >>= f = negative

-- os.environ
abbrev pub Environ : Type 0
Environ = String → Option Text

abbrev pub codes : String → Text
codes String.[] = []
codes (String.◌∷◌ c s) = code c ∷ codes s

-- str.isspace
abbrev is_space : ℕ → Bool
is_space c =
    (leb 9 c && leb c 13)
    || (leb 28 c && leb c 32)
    || (c == 0x85)
    || (c == 0xA0)
    || (c == 0x1680)
    || (leb 0x2000 c && leb c 0x200A)
    || (c == 0x2028)
    || (c == 0x2029)
    || (c == 0x202F)
    || (c == 0x205F)
    || (c == 0x3000)

abbrev pub is_digit : ℕ → Bool
is_digit c = leb b'0' c && leb c b'9'

-- digits with single underscores between them; `ended` is whether the text may end here
unfoldable pub read_digits : Bool → ℕ → Text → Option ℕ
read_digits true n [] = some n
read_digits false n [] = none
read_digits ended n (c ∷ s) =
    let digit = read_digits true (n * 10 + (c - b'0')) s in
    let underscore = read_digits false n s in
    if is_digit c then digit else if (c == b'_') && ended then underscore else none

unfoldable pub strip_left : Text → Text
strip_left [] = []
strip_left (c ∷ s) = let rest = strip_left s in if is_space c then rest else c ∷ s

-- a space is kept where something follows that is kept
abbrev keep_before : ℕ → Text → Text
keep_before c [] = if is_space c then [] else c ∷ []
keep_before c (d ∷ s) = c ∷ d ∷ s

unfoldable pub strip_right : Text → Text
strip_right [] = []
strip_right (c ∷ s) = keep_before c (strip_right s)

abbrev pub positive : Option ℕ → Read ℕ
positive none = value_error
positive (some n) = value n

abbrev pub negated : Option ℕ → Read ℕ
negated none = value_error
negated (some n) = if n == 0 then value 0 else negative

unfoldable pub read_signed : Text → Read ℕ
unfolding read_digits
read_signed [] = value_error
read_signed (c ∷ s) =
    if c == b'-'
    then negated (read_digits false 0 s)
    else if c == b'+'
    then positive (read_digits false 0 s)
    else positive (read_digits false 0 (c ∷ s))

-- int(text)
unfoldable pub int : Text → Read ℕ
unfolding read_signed strip_left strip_right
int s = read_signed (strip_left (strip_right s))

abbrev pub int_or : ℕ → Option Text → Read ℕ
int_or default none = value default
int_or default (some raw) = int raw

unfoldable pub int_env : Environ → String → ℕ → Read ℕ
unfolding int
int_env environ name default = int_or default (environ name)

-- str.lower, as far as it matters to the comparison with words in ASCII
abbrev pub lower : ℕ → ℕ
lower c = if leb b'A' c && leb c b'Z' then c + 32 else c

unfoldable pub text_eq : Text → Text → Bool
text_eq [] [] = true
text_eq [] (d ∷ t) = false
text_eq (c ∷ s) [] = false
text_eq (c ∷ s) (d ∷ t) = (c == d) && text_eq s t

abbrev pub is_true : Text → Bool
is_true s =
    text_eq s (codes "1")
    || text_eq s (codes "true")
    || text_eq s (codes "yes")
    || text_eq s (codes "on")

abbrev pub bool_or : Bool → Option Text → Bool
bool_or default none = default
bool_or default (some raw) = is_true (map lower raw)

unfoldable pub bool_env : Environ → String → Bool → Bool
unfolding text_eq
bool_env environ name default = bool_or default (environ name)

-- os.environ.get(name, default)
abbrev pub text_or : Text → Option Text → Text
text_or default none = default
text_or default (some raw) = raw

-- The module's constants; those that the services count with are in `settings`.
pub record Configuration (Float : Type 0) : Type 0 where
  pub settings : Settings
  pub data_dir : Text
  pub upload_dir : Text
  pub db_path : Text
  pub embedding_model : Text
  pub embed_batch_size : ℕ
  pub qdrant_url : Text
  pub worker_poll_seconds : Float

-- UPLOAD_DIR and DB_PATH, under DATA_DIR
abbrev pub upload_dir_of : Text → Text
upload_dir_of data_dir = data_dir ++ codes "/uploads"

abbrev pub db_path_of : Text → Text
db_path_of data_dir = data_dir ++ codes "/metadata.db"

abbrev pub float_or_error {ℓ} : {F : Type ℓ} → Option F → Read F
float_or_error none = value_error
float_or_error (some x) = value x

-- The body of the module, up to the path of its data directory, which `resolve` makes absolute.
module _ {Float : Type 0} (float : Text → Option Float) (resolve : Text → Text) where
  unfoldable pub load : Environ → Read (Configuration Float)
  unfolding int_env bool_env
  load environ = do
    let data_dir = resolve (text_or (codes "data") (environ "DATA_DIR"))
    max_chunk_bytes ← int_env environ "MAX_CHUNK_BYTES" (16 * 1024 * 1024)
    max_file_bytes ← int_env environ "MAX_FILE_BYTES" (10 * 1024 * 1024 * 1024)
    max_concurrent_uploads ← int_env environ "MAX_CONCURRENT_UPLOADS" 50
    passage_target_bytes ← int_env environ "PASSAGE_TARGET_BYTES" 600
    passage_max_bytes ← int_env environ "PASSAGE_MAX_BYTES" 2048
    passage_overlap_bytes ← int_env environ "PASSAGE_OVERLAP_BYTES" 120
    index_memory_budget_bytes ← int_env environ "INDEX_MEMORY_BUDGET_BYTES" (1024 * 1024 * 1024)
    passage_max_target_bytes ← int_env environ "PASSAGE_MAX_TARGET_BYTES" 6000
    let embedding_model =
        text_or (codes "sentence-transformers/all-MiniLM-L6-v2") (environ "EMBEDDING_MODEL")
    embedding_dim ← int_env environ "EMBEDDING_DIM" 384
    embed_batch_size ← int_env environ "EMBED_BATCH_SIZE" 32
    worker_count ← int_env environ "WORKER_COUNT" 2
    let qdrant_url = text_or (codes "http://localhost:6333") (environ "QDRANT_URL")
    let quantization_always_ram = bool_env environ "QUANTIZATION_ALWAYS_RAM" false
    claim_batch_size ← int_env environ "CLAIM_BATCH_SIZE" 32
    max_retries ← int_env environ "MAX_RETRIES" 3
    worker_poll_seconds ←
        float_or_error (float (text_or (codes "0.5") (environ "WORKER_POLL_SECONDS")))
    default_top_k ← int_env environ "DEFAULT_TOP_K" 5
    max_top_k ← int_env environ "MAX_TOP_K" 20
    value (record {
      settings = record {
        max_chunk_bytes = max_chunk_bytes;
        max_file_bytes = max_file_bytes;
        max_concurrent_uploads = max_concurrent_uploads;
        passage_target_bytes = passage_target_bytes;
        passage_max_bytes = passage_max_bytes;
        passage_overlap_bytes = passage_overlap_bytes;
        index_memory_budget_bytes = index_memory_budget_bytes;
        passage_max_target_bytes = passage_max_target_bytes;
        embedding_dim = embedding_dim;
        quantization_always_ram = quantization_always_ram;
        claim_batch_size = claim_batch_size;
        max_retries = max_retries;
        worker_count = worker_count;
        default_top_k = default_top_k;
        max_top_k = max_top_k;
      };
      data_dir = data_dir;
      upload_dir = upload_dir_of data_dir;
      db_path = db_path_of data_dir;
      embedding_model = embedding_model;
      embed_batch_size = embed_batch_size;
      qdrant_url = qdrant_url;
      worker_poll_seconds = worker_poll_seconds;
    })
