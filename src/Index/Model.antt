-- ===== src/Index/Model.antt =====
-- app/rag/ingestion/embedder.py, `get_model`: the model that all threads share, loaded under a lock. A
-- step is one access to `_model` or to `_model_lock`, of any thread. The models that
-- SentenceTransformer gives are numbered in the order of their loading.
use rag_semantic_search.Prelude.{ℕ, ◌+◌, ◌≡◌, Option, none, some, ◌==◌, if◌then◌else◌}

-- Where a thread stands in `get_model`; it may call it again after it has returned or raised.
pub data Place : Type 0 where
  outside : Place
  first_test : Place
  waiting : Place
  second_test : Place
  loading : Place
  leaving : Place
  returning : Place
  returned : Option ℕ → Place

-- `model` is `_model`, `holder` the thread that holds `_model_lock`, `loads` the number of models that
-- were loaded.
pub record Loader : Type 0 where
  pub model : Option ℕ
  pub loads : ℕ
  pub holder : Option ℕ
  pub place : ℕ → Place

abbrev pub move : Loader → ℕ → Place → Loader
move l thread p = record l { place = λ i. if i == thread then p else l.place i }

abbrev pub at_import : Loader
at_import = record { model = none; loads = 0; holder = none; place = λ i. outside }

pub data Access (l : Loader) : Loader → Type 0 where
  calls : (i : ℕ) → l.place i ≡ outside → Access l (move l i first_test)
  calls_again : (i : ℕ) (m : Option ℕ) → l.place i ≡ returned m → Access l (move l i first_test)
  finds_model :
      (i m : ℕ) → l.place i ≡ first_test → l.model ≡ some m → Access l (move l i returning)
  finds_none : (i : ℕ) → l.place i ≡ first_test → l.model ≡ none → Access l (move l i waiting)
  acquires :
      (i : ℕ)
      → l.place i ≡ waiting
      → l.holder ≡ none
      → Access l (move (record l { holder = some i }) i second_test)
  finds_model_locked :
      (i m : ℕ) → l.place i ≡ second_test → l.model ≡ some m → Access l (move l i leaving)
  finds_none_locked :
      (i : ℕ) → l.place i ≡ second_test → l.model ≡ none → Access l (move l i loading)
  loads :
      (i : ℕ)
      → l.place i ≡ loading
      → Access l (move (record l { model = some l.loads; loads = l.loads + 1 }) i leaving)
  load_raises :
      (i : ℕ) → l.place i ≡ loading → Access l (move (record l { holder = none }) i outside)
  releases :
      (i : ℕ) → l.place i ≡ leaving → Access l (move (record l { holder = none }) i returning)
  returns : (i : ℕ) → l.place i ≡ returning → Access l (move l i (returned l.model))

pub data Loading : Loader → Type 0 where
  start : Loading at_import
  after : {l m : Loader} → Loading l → Access l m → Loading m
