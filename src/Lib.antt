-- ===== src/Lib.antt =====
-- A verification library for the PID Analyzer backend (backend/app): authentication and accounts, consent
-- and erasure, the review of drawings, and the workers behind the queues.
--
-- A request carries a bearer token; the middleware turns it into an identity, the permission matrix decides
-- what this identity may do, and a service then reads and writes the tables of the database and sends
-- messages to Celery workers. Each service is a function from its request, its surroundings and its state to
-- an answer and the state that it leaves. What the repository calls and does not contain (PyJWT, Supabase,
-- Redis, PostHog, clamd, S3, Celery, the database engine) is a parameter: the record `Outside` of a module
-- says which calls of one run succeed and what they bring, `Redis`, `Values`, `Digest`, `Celery`, `Engine` and
-- `RowSecurity` are interfaces with the documented laws of Redis, of hashlib, of Celery and of
-- PostgreSQL, `Calendar`, `Json` and `Reads` are what is read of Python's dates and JSON, and `decode`,
-- `parse_uuid`, `parse_int`, `hmac`, `str` and `parse` are functions of the caller.
-- System puts the operations on accounts together: a run is any sequence of them, in any order.
--
-- Prelude: the shared names, Boolean tests, lists, Python's text methods, and results with a state.
-- Samples: the users and tables of the tests, which stand in the module Tests of each component.
-- Db, Db/Tables: the rows of backend/app/db/models, and tables read and written by primary key.
-- Db/Partitions: the partitions of backend/app/db/models/audit_log.py, and those that
--   backend/alembic/versions/0003_audit_partitions.py makes.
-- Db/Schema: the first migration, backend/alembic/versions/0001_initial_schema.py, with the seeds of
--   backend/app/db/seed_tiers.py and backend/app/db/seed_entity_classes.py. Its statements run on the interface
--   Db/Schema/Engine, of which Db/Schema/Memory is an instance. Db/Schema/RowSecurity: the second migration,
--   backend/alembic/versions/0002_rls_policies.py, and both in their order.
-- Config: the settings of backend/app/config.py. Config/Startup: what a started process relies on.
-- Auth/Permissions: `ROLE_PERMISSIONS`, `check_permission` (backend/app/auth/permissions.py) and
--   `resolve_ownership`, `require_permission` (backend/app/auth/dependencies.py).
-- Auth/Middleware: `get_bearer_token`, `authenticate_request` (backend/app/auth/middleware.py) and
--   `verify_token` (backend/app/auth/jwt_verifier.py).
-- Auth/Dependencies: `get_current_user`, `require_role` (backend/app/auth/dependencies.py) and the dispatch of
--   `AuthMiddleware` (backend/app/auth/middleware.py).
-- Auth/BruteForce: the lockout of backend/app/auth/brute_force.py and the counter of
--   backend/app/redis/cache.py. Redis is the interface of the counter; Redis/Memory is an instance.
-- Redis/Cache: the flags and the taxonomy of backend/app/redis/cache.py, over the interface Redis/Values.
-- Redis/Pubsub: publication and subscription of backend/app/redis/pubsub.py.
-- Redis/Client: the clients of backend/app/redis/client.py, and `_publish_then_close` of
--   backend/app/workers/scan/tasks.py with the event loops on which it runs.
-- Account/Deletion: backend/app/services/gdpr_init_service.py. Account/Erasure: `purge_user_pii`
--   (backend/app/workers/gdpr/anonymizer.py) and the scan of backend/app/workers/gdpr/tasks.py;
--   Account/Erasure/Job: its task `erase_user_pii`.
-- AuthService: register, login, oauth_google, refresh and logout of backend/app/services/auth_service.py,
--   and both flows of backend/app/services/password_reset.py.
-- AuthService/GoTrue: `_raise_for_gotrue` and the `supabase_*` wrappers of
--   backend/app/services/auth_service.py, and `admin_sign_out` of backend/app/auth/supabase_client.py.
-- AuthService/Admin: all of backend/app/auth/supabase_client.py, with the requests that it makes.
-- Consent: backend/app/services/consent_service.py, and two concurrent updates as a step relation.
-- Profile: backend/app/services/account_service.py and the body of `patch_account` in
--   backend/app/api/routers/account.py.
-- Routers/Auth, Routers/Email: the handlers of backend/app/api/routers/auth.py, and `_valid_email` with its
--   pattern as an automaton. Routers/Account: the handlers of backend/app/api/routers/account.py behind
--   their guard. Routers/Table: the routes of backend/app/api/routers/__init__.py and backend/app/main.py, and
--   the stubs of backend/app/api/routers/_stubs.py.
-- Review: backend/app/services/symbol_service.py and backend/app/services/correction_service.py, with the
--   request checks of backend/app/api/routers/symbols.py. Review/Constraints: their writes against the
--   constraints of the first migration. Review/Corrections/Effects: what a review leaves in the tables.
-- Scan: backend/app/workers/scan/tasks.py and backend/app/workers/scan/clamav_client.py. Scan/Clamd: where the
--   worker finds clamd. Scan/Overlap: two deliveries of one job that overlap, as a step relation.
-- Workers: the task names of backend/app/workers/notification/tasks.py. Workers/Notification and
--   Workers/Delivery: its retry policy, and a task with all its retries. Workers/Tasks: its four email
--   tasks. Workers/SendGrid: backend/app/workers/notification/sendgrid_client.py. Workers/Templates:
--   backend/app/workers/notification/templates.py. Workers/Base: backend/app/workers/base.py; its interface of
--   Celery says what becomes of a message. Workers/Queues: the routes of backend/app/workers/queues.py.
-- DeadLetter: backend/app/analytics/dead_letter.py, in DeadLetter/Emit the emission of
--   backend/app/analytics/events.py, and in DeadLetter/Events its nine events, with the switch of
--   backend/app/analytics/posthog_client.py.
-- Storage: backend/app/storage/hashing.py, backend/app/storage/blocklist.py and the object keys of
--   backend/app/storage/presigned.py; in Storage/Objects the requests that this file and
--   backend/app/storage/s3_client.py make of boto3.
-- System: the operations on accounts as steps; System/Change what a step may do to the table of users,
--   System/Effects and System/Removal that each operation does no more, System/Lifecycle the abstract life of
--   an account, System/Accounts and System/Answers what holds in every state that is reached.
--
-- A UUID is a number, and its text forms go through `parse_uuid` and `str`. Times are numbers: microseconds
-- for the columns, seconds for Redis. Texts are texts of ASCII characters where `lower` reads
-- them. Floats are only stored and passed on, and are values of an arbitrary type. A database transaction
-- commits or leaves the tables as they were; rows come in the order of the table where a query orders
-- nothing. Two loops are on fuel: that of the streamed hash gets one round for every byte and one more, and each
-- round but the last one reads at least one byte; an email task gets four rounds, since Celery, as documented,
-- makes at most MAX_RETRIES retries.
--
-- Not modelled: reads of the database that fail, but for the one in front of a password reset, the clients
-- of Redis and of boto3 themselves (input and output), the delays between retries and the options of
-- backend/app/workers/celery_app.py (Celery's), the declarations of SQLAlchemy, what an index is over, what
-- row level security does to a query, the frontend and the marketing site.
pub mod Prelude
pub mod Db
pub mod Auth
pub mod Account
pub mod Consent
pub mod Redis
pub mod AuthService
pub mod Review
pub mod Scan
pub mod Workers
pub mod DeadLetter
pub mod Storage
pub mod Profile
pub mod Config
pub mod Routers
pub mod System
pub mod Samples
