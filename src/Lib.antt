-- ===== src/Lib.antt =====
-- Employee compliance SaaS: the records of employees and their documents, kept for many tenants in one
-- Postgres database, with expiry statuses, reminders and an audit trail. Two processes share the
-- database: the HTTP API (apps/api) and the queue worker (apps/worker).
--
-- The parts, and the modules that model them:
--   * Common: the shared helpers. Lists are measured by native numbers; Exec is code that changes a
--     state and may throw, where what was written before a throw stays unless something rolls it back;
--     Keeps is what an action preserves; Int has the integers over the native numbers, Text the string
--     methods of JavaScript that the source calls.
--   * Database: the rows of packages/database/src/schema.ts, one table under the row-level security of
--     packages/database/migrations/003_rls.sql (Table), tables with a unique key (Keys), the statements
--     of a transaction after setTenantContext of apps/api/src/database/tenant-context.ts (Session), the
--     rows as jsonb states (Record), and tenant isolation of each statement (Isolation).
--   * Calendar: apps/api/src/common/calendar-days.ts and its copy in apps/worker/src/workers.
--   * Expiry: ExpiryService.calculateStatus of apps/api/src/expiry/expiry.service.ts.
--   * Audit: AuditService.log of apps/api/src/audit/audit.service.ts.
--   * Employees, Documents: create, update and archive of apps/api/src/employees/employees.service.ts
--     and apps/api/src/documents/documents.service.ts; Listing: their findAll, findOne and
--     findAllForEmployee, with what Postgres documents of ORDER BY (Order) and the pages together (Pages).
--   * Reminders: the daily scan of apps/worker/src/workers/reminder-scanner.worker.ts and the rule of
--     reminder-policy.ts; Reminders.Dispatch: the handler of apps/worker/src/workers/reminder.worker.ts;
--     Reminders.Delivered: the two together.
--   * Access: request-id.middleware.ts and audit-context.ts of apps/api/src/common, the guards of
--     apps/api/src/auth, tenant and rbac, and packages/shared/src/constants/roles.constants.ts.
--   * Filter: apps/api/src/filters/http-exception.filter.ts.
--   * Health: apps/api/src/health.
--   * Notifications: the settings and the figures of apps/api/src/notifications, and
--     failure-alert-policy.ts and failure-alert-scanner.worker.ts of apps/worker/src/workers.
--   * Dashboard: getSummary, getDocumentStats (Figures) and getExpiringDocuments (Expiring, Window) of
--     apps/api/src/dashboard/dashboard.service.ts.
--   * Imports: apps/worker/src/workers/import.worker.ts; Imports.Rows, Imports.Service and
--     Imports.Upload: employee-row.ts, import.service.ts and import-queue.service.ts of
--     apps/api/src/import-export, and apps/api/src/employees/employees.schemas.ts.
--   * Exports: apps/api/src/import-export/export.service.ts; Reimport: its file in an import.
--   * Api: the values of a request and the zod schemas (Wire, Schemas), the handlers of the seven
--     *.controller.ts of employees, documents, dashboard, notifications and import-export of
--     apps/api/src (Controllers), and the routes with their roles and guards (Routes), of which `serve`
--     runs one request.
--   * Migrations: infra/postgres/migrate.js.
--   * Seed: tools/seed/generate.ts, the generator of test data, and tools/seed/config.ts.
--   * Platform: the writing calls and the jobs in any order, on the database, the mails that have left
--     and the queue of completion jobs.
--   * Examples: a small database, tests, and the theorems at concrete data.
--
-- How they interact: a service method is one transaction. It sets the tenant, reads and writes through
-- the statements of Session, and calls Audit.log in the same transaction, where a savepoint keeps the
-- failure of the audit INSERT from the caller. The scan reads documents, settings and the log, and adds
-- jobs to a queue, which is a list; the dispatch of a job writes the log and claims a key.
--
-- What stands for code outside the repository: the record Postgres (random uuids by the number of
-- those drawn before, the reading of texts into uuid and inet columns, full-text match), the mail
-- dispatcher, jose's jwtVerify, the sort of ORDER BY (in Listing one for each query, as Postgres
-- leaves rows of one created_at open), addDays of date-fns, what a file of SQL makes of the schema
-- of the database, what faker and the random generators return, and, for imports and exports, the
-- hash of a file, what exceljs reads and writes of it and the texts of zod's issues. Of zod the
-- tests on texts and the conversion to a number are parameters too; how its schemas are put together
-- of them is written out. All are parameters of the definitions.
--
-- Bounds: all loops are structural recursion, except three on fuel: the printing of a number, on
-- more than the number has digits (Common.Text), and the batches of the generator and their chunks,
-- of which each takes at least one row of those to go, on more than there are rows (Seed). Numbers
-- are natural numbers without a bound; the columns are 32-bit integers, so that a version counter
-- past 2 ^ 31 - 1, which Postgres refuses, is outside the model. Uuids are numbers, instants are
-- milliseconds since 1970. Transactions run one after the other, and those of one import at one
-- time. The `new Date()` of ExpiryService in creating and updating a document is the time of the
-- transaction, and the 500 units to which an error message is cut are code points, where the source
-- counts those of UTF-16.
--
-- Not modelled: perf.controller.ts, which measures development systems; the addresses of the routes
-- and the size limit of an upload; the schemas of the data of a job and the texts of mails;
-- connections, logging, process start, and the tools for cleaning up, Keycloak users and load,
-- which are input and output.
pub mod Common
pub mod Database
pub mod Calendar
pub mod Expiry
pub mod Audit
pub mod Employees
pub mod Documents
pub mod Platform
pub mod Reminders
pub mod Seed
pub mod Access
pub mod Api
pub mod Filter
pub mod Health
pub mod Notifications
pub mod Dashboard
pub mod Listing
pub mod Imports
pub mod Exports
pub mod Migrations
pub mod Examples
