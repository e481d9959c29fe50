-- ===== src/Lib.antt =====
-- Raj Data Handle compares the rows of payment files with the charge orders of a remote admin site
-- and reports the payments that the site has lost.
--
-- The parts, and how they work together. A user uploads a file, which makes a batch. Confirming it
-- puts it into a queue, from which a worker executes it: the importer turns the rows of the file
-- into order groups, the remote client reads the charge orders of the chosen channels, the engine
-- compares each group with them, and a group without an order is searched for once more by its
-- numbers. Every change of a batch's status passes a table of transitions.
--
--   BatchState     packages/domain/services/batch_state.py: the statuses and the table
--   Batch          packages/domain/models/entities.py: the rows, and the store that holds them
--   Batch.*        packages/domain/services/batch_service.py: Transition has `transition_batch`,
--                  Validation `_validate_execution_parameters`, Service `confirm_batch`,
--                  `cancel_batch` and `rerun_batch`
--   Creation       the same file: `create_batch_from_upload`, which uses Templates, Storage and
--                  Retention.Settings. Outcome has the cases in which it ends
--   Storage        packages/storage/local.py and base.py: uploads under the digest of their content.
--                  Upload compares it with a map from paths to contents
--   Retention      packages/domain/services/retention_cleanup_service.py: the cleanup of rows and disk;
--                  Settings has packages/domain/services/system_setting_service.py
--   Payment        the order groups and the result statuses that the other parts share
--   Import.Parse   packages/domain/services/payment_import_service.py: the cells of one row
--   Import.Groups  the same file: grouping the rows, and `import_payment_orders`
--   Remote         packages/domain/services/remote_charge_service.py: login and reading
--   Remote.Session its state and the requests that it sends
--   Remote.Orders  the same file: pages, `fetch_all_charge_orders` and `exact_search`
--   Results        packages/domain/services/result_service.py: the exported rows and sheets
--   Engine         packages/domain/services/reconciliation_engine.py
--   Execution      packages/domain/services/reconciliation_execution_service.py: the comparison and
--                  the recheck; Steps has the state of an execution, Publish the end of
--                  `execute_reconciliation_batch` with the handler of its second `try`, Start the
--                  function as a whole, with Inputs for what the first `try` reads and Times for the
--                  window; Ended and Settled follow it to its end, and Inputs.Ready joins it
--                  with `confirm_batch`
--   Account        packages/domain/models/entities.py and packages/common/security.py: users, sessions
--                  and passwords; Users and Sessions have the operations of
--                  packages/domain/services/auth_service.py
--   Secret         packages/common/security.py: the encryption of the credentials of a source
--   Sources        packages/domain/services/source_service.py: addresses and names; Request, Update,
--                  Removal and Connection have its operations. Connection runs the client of Remote
--   Templates      packages/domain/services/payment_template_service.py: the headers of a file; Detection
--                  has `detect_payment_template`
--   RateLimit      packages/domain/services/rate_limit_service.py: the limit on login attempts
--   Worker         apps/worker/main.py: `process_next_batch` around any execution; Whole puts that of
--                  Execution.Start into it
--   Base, Text, Value, Decimal
--                  what the code uses of Python: exceptions, texts, the values of a JSON document
--                  or of a cell, and `decimal.Decimal`
--
-- Definitions have the source's names, in this language's spelling. Code that may raise returns a
-- `Result`; the client passes its state on, and what it sent before a raise stays sent. The services
-- on the database take a `Store` and return the one after their commit; a session that is left by an
-- exception commits nothing. Clock readings and new ids are arguments.
--
-- Parameters: the remote site answers each request from all requests before it, in any way, or the library
-- raises instead, and it gives the codes for a login (Remote.Session.Site); the cryptography, the
-- tokens, base64 and json are those of Account.Security and Secret.Cipher, addresses and zones of
-- Sources.Library, the patterns of sheets an argument, the counter in Redis an answer (RateLimit.Logins
-- has many calls, each with its answer); the time zone database and the parsing of times are a
-- Calendar; SHA-256 is a function; the rows of a file are a list or what reading it raises; the
-- resolution of paths and the digest of an upload are those of Storage.System.
--
-- Fuel: the `while True` of `fetch_all_charge_orders` runs on 100,000 rounds for each channel. That is
-- enough, since an answer that names more than 100,000 pages is refused and a page is asked for only
-- below the number of pages: no run of the model ends for want of fuel. The copy of an upload has one round
-- more than the upload has bytes, and each round but the last takes one at least.
--
-- Bounds: Python's integers have none. Texts are sequences of characters of which the ASCII ones
-- count as spaces and digits. A float is what `int` and `is_integer` tell of it, with its text.
--
-- The session of the database has `autoflush=False`: a query does not see the rows that were added and not
-- committed, and a new row has its column defaults only after the flush.
--
-- An execution shares the store with other sessions: before each of its reads and writes, others may
-- have committed anything (Execution.Steps.World). The result rows stand apart from that store: what other
-- sessions might do to them, and their unique key of batch and group, are left out.
--
-- Not modelled: captchas and notifications; the reading and the writing of workbooks and CSV files,
-- which is the work of libraries; the HTTP routes, the worker's polling, the migrations, the
-- deployment and the user interface; the queries that change nothing.
-- The texts of exceptions are left out, and so are the columns `error_message`, `created_at` of an
-- account or a source, and `updated_at`, and the lengths of columns. Calls of the file system
-- succeed.
pub mod Base
pub mod Text
pub mod Value
pub mod Decimal
pub mod Account
pub mod Secret
pub mod Sources
pub mod Payment
pub mod Engine
pub mod Execution
pub mod Import
pub mod Remote
pub mod BatchState
pub mod Batch
pub mod Templates
pub mod RateLimit
pub mod Worker
pub mod Storage
pub mod Retention
pub mod Creation
pub mod Results
