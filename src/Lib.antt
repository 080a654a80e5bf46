-- ===== src/Lib.antt =====
-- A retrieval-augmented assistant over regulatory documents, modelled part by part from server/app.
-- Users upload documents (server/app/application/documents), which are cut into chunks that live in
-- PostgreSQL and in a Qdrant index; an outbox table carries every change from the one to the other.
-- A question is answered from the chunks that the user may see
-- (server/app/domain/knowledge/access_control.py, and its translation into Qdrant filters) and that
-- belong to the edition of an act in force on the date asked about
-- (server/app/domain/knowledge/acts), in an order and within a budget of tokens
-- (server/app/domain/rag/retrieval.py). Calls of failing services pass a circuit breaker, paid calls
-- reserve units in a ledger first, and long work runs as background jobs. Administrators change the
-- configuration while the program runs, and a write request that is repeated is answered from its
-- reservation.
--
-- Files and what they model:
--   Prelude: tests, lists, sets of ids, errors (server/app/domain/shared/exceptions.py).
--   Identity: roles and user context of server/app/domain/identity, and
--     server/app/application/identity/user_context_factory.py.
--   Documents: server/app/domain/knowledge/document.py and enums.py.
--   Access: server/app/domain/knowledge/access_control.py; Access/Spec is an independent table of
--     rights; Access/Upload is server/app/application/documents/upload.py and manual.py; Access/Qdrant
--     is server/app/infrastructure/repositories/vector/acl.py over a parameter for the filter language.
--   Breaker: server/app/infrastructure/resilience/circuit_breaker.py.
--   Acts: server/app/domain/knowledge/acts (models.py, policy.py, timeline.py) and the new version of
--     server/app/application/act_versioning/commands.py.
--   Budget: server/app/infrastructure/budget/ledger.py (Budget, Budget/Table and Budget/Payment, one
--     function per method) and the release of server/app/infrastructure/budget/transport.py.
--   Outbox: Outbox/Entry is server/app/domain/knowledge/index_sync.py, Outbox/Table the repository
--     sqlalchemy_vector_outbox_repository.py in server/app/infrastructure/repositories/config, and
--     Outbox the dispatcher server/app/infrastructure/repositories/vector/outbox_dispatcher.py.
--   Jobs: server/app/domain/runtime/jobs.py, its repository in
--     server/app/infrastructure/repositories/misc, and the tracked run and the sweep of
--     server/app/infrastructure/worker (runtime.py, cron.py). Jobs/Runs are the runs of one job, with
--     what the queue does with a cancelled run as an argument.
--   Retrieval: server/app/domain/rag/retrieval.py, its order, deduplication and budget.
--   Corpus: server/app/infrastructure/corpus: Corpus/Repository is repository.py, Corpus/Guards
--     locks.py, Corpus/Clients the leases of snapshot.py, and Corpus the switch, the recovery and
--     the ticks of control.py. Corpus/Steps interleaves them.
--   Acts/Changes, Acts/Persistence and Acts/Commands: changed_versions of timeline.py, and
--     persistence.py and commands.py of server/app/application/act_versioning, with the statements
--     of sqlalchemy_act_version_repository.py. A write that breaks the unique index of models.py is
--     the error `integrity_error`. Where a command reads the day twice, the
--     readings are arguments of their own.
--   Chunks: mutations.py and access.py of server/app/application/chunks; Chunks/Index is the part of
--     the dispatcher that applies entries of chunks to the index, and Chunks/Interleavings mixes the
--     two for one document, whose lock admits one upsert at a time. The attempts of an entry are not
--     counted there: any failure may make it a dead letter.
--   Config: Config/Parameter is server/app/domain/runtime/config.py, Config/Params dynamic_params.py and
--     Config/Keys setting_keys.py beside it, Config/Repository the repository
--     sqlalchemy_config_parameter_repository.py, Config/Service
--     server/app/application/admin/config_service.py and Config/Seeding the seeds of
--     server/app/infrastructure/initialization.py. Python's numbers are an interface.
--   Context: resolve_temporal_conflicts of server/app/infrastructure/ml/rag/rag_postprocess.py in
--     Context/Temporal, and context_selection.py beside it in Context/Selection, whose loop runs on
--     the number of the entries that remain: each turn takes one. Floating point numbers are an
--     interface.
--   Idempotency: server/app/infrastructure/rate_limit/idempotency.py, with the commands on one key in
--     any order in Idempotency/Interleavings.
--
-- How state is modelled: an object is a record and a method returns the new record; a method that
-- may raise returns a `Result` with the class of the exception. A method of a repository is one
-- transaction, a function of its table. Clock readings, answers of other services and what other
-- users of a table do meanwhile are arguments. Ids are natural numbers, dates are ordinals, and a
-- float that the code only stores is its printed text. Loops run over lists and need no fuel, but for
-- two: the tries of a job (Jobs/Runs) are counted down from the number that it and the
-- queue may use, and the packing of Context/Selection from the number of the entries, each turn of
-- which takes one. The theorems about them say that this is enough.
--
-- Not modelled: HTTP routes, SQL mapping, metrics and logs, prompts, parsing of files, embedding and
-- reranking models, and the client, which are input and output or calls of other libraries.
pub mod Prelude
pub mod Identity
pub mod Documents
pub mod Access
pub mod Breaker
pub mod Acts
pub mod Budget
pub mod Outbox
pub mod Jobs
pub mod Retrieval
pub mod Corpus
pub mod Chunks
pub mod Config
pub mod Context
pub mod Idempotency
