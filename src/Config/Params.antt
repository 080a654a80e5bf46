-- ===== src/Config/Params.antt =====
-- server/app/domain/runtime/dynamic_params.py: the declarations of the parameters that may be changed
-- while the program runs.
use rag_assistant.Prelude.{
  Bool, List, Option, String, [], any, if◌then◌else◌, is_none, none, some, ℕ, ◌&&◌, ◌++◌, ◌-◌, ◌∷◌,
}
use rag_assistant.Config.Text.{Text, codes, text_eq, option_text_eq}
use rag_assistant.Config.Keys.{llm_providers, ml_providers, ocr_engines, legal, decree}
use rag_assistant.Config.Parameter.{
  ConfigValueType, bool_type, int_type, float_type, str_type, list_type, DynamicParamCategory,
  corpus, cost, hybrid, ingestion, jobs, llm, ml, ocr, openrouter, rag, rate_limit, reranker,
  toggles, Number, whole, floating, pos, Numbers,
}

pub record DynamicParam (F : Type 0) : Type 0 where
  pub key : Text
  pub type : ConfigValueType
  pub category : DynamicParamCategory
  pub min_val : Option (Number F)
  pub max_val : Option (Number F)
  pub allowed : Option (List Text)
  pub domain_key : Option Text

abbrev upload_request_ceiling_mb : ℕ
upload_request_ceiling_mb = 64

abbrev max_upload_file_mb : ℕ
max_upload_file_mb = upload_request_ceiling_mb - 1

module _ {F : Type 0} where
  abbrev declare :
      String
      → ConfigValueType
      → DynamicParamCategory
      → Option (Number F)
      → Option (Number F)
      → Option (List Text)
      → Option Text
      → DynamicParam F
  declare k t c low high texts domain = record {
    key = codes k;
    type = t;
    category = c;
    min_val = low;
    max_val = high;
    allowed = texts;
    domain_key = domain;
  }

  abbrev integer : ℕ → Option (Number F)
  integer n = some (whole (pos n))

module _ {F : Type 0} ⦃numbers : Numbers F⦄ where
  open numbers use {decimal}

  -- a literal of type `float`: `m * 10 ** -e`
  abbrev float : ℕ → ℕ → Option (Number F)
  float m e = some (floating (decimal m e))

  unfoldable http_params : List (DynamicParam F)
  http_params =
      declare "qdrant_url" str_type corpus none none none none
      ∷ declare "collection_name" str_type corpus none none none none
      ∷ declare "cost_rate_limit_enabled" bool_type cost none none none none
      ∷ declare "cost_hourly_limit" float_type cost (float 1 9) none none none
      ∷ declare "cost_daily_limit" float_type cost (float 1 9) none none none
      ∷ declare "max_upload_size_mb" int_type ingestion (integer 1) (integer max_upload_file_mb)
          none none
      ∷ declare "preview_max_size_mb" int_type ingestion (integer 1) (integer max_upload_file_mb)
          none none
      ∷ declare "preview_cache_ttl_seconds" int_type ingestion (integer 1) none none none
      ∷ declare "job_cleanup_days" int_type jobs (integer 1) none none none
      ∷ declare "ollama_base_url" str_type llm none none none none
      ∷ declare "openrouter_base_url" str_type openrouter none none none none
      ∷ declare "tei_embed_url" str_type ml none none none none
      ∷ declare "tei_rerank_url" str_type ml none none none none
      ∷ declare "deepinfra_base_url" str_type ml none none none none
      ∷ declare "embedding_http_max_connections" int_type ml (integer 1) none none none
      ∷ declare "embedding_http_max_keepalive_connections" int_type ml (integer 0) none none none
      ∷ declare "rerank_http_max_connections" int_type ml (integer 1) none none none
      ∷ declare "rerank_http_max_keepalive_connections" int_type ml (integer 0) none none none
      ∷ []

  unfoldable rag_params : List (DynamicParam F)
  rag_params =
      declare "retriever_fetch_k" int_type rag (integer 1) (integer 200) none none
      ∷ declare "retriever_top_k" int_type rag (integer 1) (integer 50) none none
      ∷ declare "retriever_fetch_k_broad" int_type rag (integer 1) (integer 200) none none
      ∷ declare "retriever_top_k_broad" int_type rag (integer 1) (integer 50) none none
      ∷ declare "history_window" int_type rag (integer 0) (integer 50) none none
      ∷ declare "chunk_size" int_type rag (integer 100) (integer 5000) none none
      ∷ declare "chunk_overlap" int_type rag (integer 0) (integer 1000) none none
      ∷ declare "legal_chunk_size" int_type rag (integer 100) (integer 5000) none (some legal)
      ∷ declare "legal_chunk_overlap" int_type rag (integer 0) (integer 1000) none (some legal)
      ∷ declare "decree_chunk_size" int_type rag (integer 100) (integer 5000) none (some decree)
      ∷ declare "decree_chunk_overlap" int_type rag (integer 0) (integer 1000) none (some decree)
      ∷ declare "source_min_score" float_type rag (float 0 0) (float 1 0) none none
      ∷ declare "hybrid_enabled" bool_type hybrid none none none none
      ∷ declare "bm25_fetch_k" int_type hybrid (integer 1) (integer 200) none none
      ∷ declare "rrf_k" int_type hybrid (integer 1) (integer 200) none none
      ∷ declare "dense_weight" float_type hybrid (float 0 0) (float 10 0) none none
      ∷ declare "sparse_weight" float_type hybrid (float 0 0) (float 10 0) none none
      ∷ declare "rerank_min_score" float_type reranker (float 0 0) (float 1 0) none none
      ∷ declare "rerank_score_gap_ratio" float_type reranker (float 0 0) (float 1 0) none none
      ∷ declare "citation_filter_enabled" bool_type reranker none none none none
      ∷ declare "exact_ref_sparse_boost" float_type reranker (float 0 0) (float 10 0) none none
      ∷ declare "embed_batch_size" int_type ingestion (integer 1) (integer 128) none none
      ∷ declare "relevance_gate_enabled" bool_type toggles none none none none
      ∷ declare "condense_enabled" bool_type toggles none none none none
      ∷ declare "decomposition_enabled" bool_type toggles none none none none
      ∷ declare "rolling_summary_enabled" bool_type toggles none none none none
      ∷ declare "cache_enabled" bool_type toggles none none none none
      ∷ declare "pii_redaction_enabled" bool_type toggles none none none none
      ∷ declare "llm_provider" str_type llm none none (some llm_providers) none
      ∷ declare "llm_model" str_type llm none none none none
      ∷ declare "llm_temperature" float_type llm (float 0 0) (float 2 0) none none
      ∷ declare "llm_top_p" float_type llm (float 0 0) (float 1 0) none none
      ∷ declare "llm_num_ctx_narrow" int_type llm (integer 512) (integer 131072) none none
      ∷ declare "llm_num_ctx_broad" int_type llm (integer 512) (integer 131072) none none
      ∷ declare "llm_num_predict_narrow" int_type llm (integer 64) (integer 16384) none none
      ∷ declare "llm_num_predict_broad" int_type llm (integer 64) (integer 16384) none none
      ∷ declare "openrouter_model" str_type openrouter none none none none
      ∷ declare "ml_provider" str_type ml none none (some ml_providers) none
      ∷ declare "deepinfra_embed_model" str_type ml none none none none
      ∷ declare "deepinfra_rerank_model" str_type ml none none none none
      ∷ []

  unfoldable ocr_params : List (DynamicParam F)
  ocr_params =
      declare "ocr_enabled" bool_type ocr none none none none
      ∷ declare "ocr_engine" str_type ocr none none (some ocr_engines) none
      ∷ declare "ocr_dpi" int_type ocr (integer 72) (integer 600) none none
      ∷ declare "ocr_min_chars" int_type ocr (integer 0) (integer 500) none none
      ∷ declare "ocr_lang_surya" list_type ocr none none none none
      ∷ declare "ocr_lang_paddle" str_type ocr none none none none
      ∷ declare "rate_limit_enabled" bool_type rate_limit none none none none
      ∷ declare "rate_limit_fail_open" bool_type rate_limit none none none none
      ∷ declare "rate_limit_login_per_minute" int_type rate_limit (integer 1) none none none
      ∷ declare "rate_limit_chat_per_minute" int_type rate_limit (integer 1) none none none
      ∷ declare "rate_limit_chat_per_day" int_type rate_limit (integer 1) none none none
      ∷ declare "rate_limit_upload_per_hour" int_type rate_limit (integer 1) none none none
      ∷ declare "rate_limit_search_per_minute" int_type rate_limit (integer 1) none none none
      ∷ declare "rate_limit_write_per_minute" int_type rate_limit (integer 1) none none none
      ∷ declare "rate_limit_benchmark_per_hour" int_type rate_limit (integer 1) none none none
      ∷ declare "stuck_job_timeout_minutes" int_type jobs (integer 5) (integer 120) none none
      ∷ declare "stale_pending_timeout_minutes" int_type jobs (integer 5) (integer 120) none none
      ∷ []

  unfoldable pub dynamic_params : List (DynamicParam F)
  unfolding http_params rag_params ocr_params
  dynamic_params = http_params ++ rag_params ++ ocr_params

module _ {F : Type 0} where
  -- `key in DYNAMIC_FIELDS_MAP`
  abbrev pub in_dynamic_fields_map : List (DynamicParam F) → Text → Bool
  in_dynamic_fields_map params key =
      any (λ (p : DynamicParam F). is_none p.domain_key && text_eq key p.key) params

  -- `next((p for p in DYNAMIC_PARAMS if (p.key, p.domain_key) == (key, domain_key)), None)`
  abbrev pub find_declaration : Text → Option Text → List (DynamicParam F) → Option (DynamicParam F)
  find_declaration key domain_key [] = none
  find_declaration key domain_key (p ∷ params) =
      let rest = find_declaration key domain_key params in
      if text_eq p.key key && option_text_eq p.domain_key domain_key then some p else rest
