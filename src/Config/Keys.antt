-- ===== src/Config/Keys.antt =====
-- server/app/domain/runtime/setting_keys.py: the keys that the deployment owns, and
-- server/app/domain/runtime/enums.py, server/app/domain/knowledge/enums.py as to the names that the
-- declared parameters take from them.
use rag_assistant.Prelude.{List, [], ◌∷◌, map}
use rag_assistant.Config.Text.{Text, codes}

unfoldable pub secret_setting_keys : List Text
secret_setting_keys = map codes (
    "db_password" ∷ "qdrant_api_key" ∷ "openrouter_api_key" ∷ "deepinfra_api_key" ∷ "redis_password"
    ∷ "s3_access_key" ∷ "s3_secret_key" ∷ "jwt_secret_key" ∷ "admin_password" ∷ [])

unfoldable pub static_setting_keys : List Text
static_setting_keys = map codes (
    "ml_internal_allowed_origins" ∷ "ocr_vl_url" ∷ "ocr_vl_timeout" ∷ "db_host" ∷ "db_port"
    ∷ "db_user" ∷ "db_name" ∷ "db_slave_hosts" ∷ "db_slave_ports" ∷ "db_pool_size"
    ∷ "db_max_overflow" ∷ "db_pool_recycle_sec" ∷ "db_statement_timeout_ms"
    ∷ "db_idle_in_transaction_timeout_ms" ∷ "qdrant_timeout" ∷ "qdrant_search_max_concurrent"
    ∷ "qdrant_write_max_concurrent" ∷ "rag_retrieval_score_threshold" ∷ "llm_max_concurrent"
    ∷ "llm_generation_max_concurrent" ∷ "llm_auxiliary_max_concurrent" ∷ "llm_request_timeout"
    ∷ "llm_auxiliary_timeout" ∷ "embedding_max_concurrent" ∷ "ingestion_max_concurrent"
    ∷ "reranker_max_concurrent" ∷ "bm25_search_max_concurrent" ∷ "semaphore_acquire_timeout"
    ∷ "benchmark_max_concurrent" ∷ "benchmark_judge_max_concurrent"
    ∷ "benchmark_judge_grouped_enabled" ∷ "benchmark_judge_initial_tokens"
    ∷ "benchmark_judge_retry_tokens" ∷ "benchmark_judge_model" ∷ "tei_embed_model"
    ∷ "embedding_revision" ∷ "embed_dim" ∷ "curator_scope_max_ids" ∷ "redis_host" ∷ "redis_port"
    ∷ "redis_user" ∷ "redis_db" ∷ "worker_max_concurrent" ∷ "redis_socket_timeout"
    ∷ "redis_max_connections" ∷ "s3_endpoint" ∷ "s3_bucket" ∷ "s3_region" ∷ "s3_max_concurrent"
    ∷ "supported_extensions" ∷ "data_dir" ∷ "uploads_prefix" ∷ "allowed_origins"
    ∷ "forwarded_allow_ips" ∷ "jwt_algorithm" ∷ "jwt_expire_minutes" ∷ "admin_email" ∷ "timezone"
    ∷ "stage" ∷ "rate_limit_redis_prefix" ∷ "rate_limit_max_buckets" ∷ "llm_breaker_fail_max"
    ∷ "llm_breaker_timeout_duration" ∷ [])

unfoldable pub metadata_setting_keys : List Text
metadata_setting_keys = map codes ("version" ∷ "service_start_datetime" ∷ [])

abbrev pub llm_providers : List Text
llm_providers = codes "ollama" ∷ codes "openrouter" ∷ []

abbrev pub ml_providers : List Text
ml_providers = codes "tei" ∷ codes "deepinfra" ∷ []

abbrev pub ocr_engines : List Text
ocr_engines = codes "paddleocr" ∷ codes "surya" ∷ codes "paddleocr_vl" ∷ []

abbrev pub legal : Text
legal = codes "legal"

abbrev pub decree : Text
decree = codes "decree"
