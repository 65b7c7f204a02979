-- ===== src/Lib.antt =====
-- The DingTalk OA attachment broker: the core of the server, modelled and proved.
--
-- A user logs in by a device code, gets a session, and lists and downloads the attachments of the
-- approvals that the user takes part in. The broker keeps its state in PostgreSQL, asks DingTalk for
-- approvals and download URLs, and records each decision.
--
-- The files, by the source that they model:
--   Prelude           Boolean tests, lists, equality, and Go maps as association lists
--   Runes             the functions of strings and unicode that the source calls
--   Domain/Errors     internal/domain/errors.go: errors as lists of sentinels, ErrorClass
--   Domain/Identifier internal/domain/approval_identifier.go: NormalizeProcessInstanceID
--   Domain/Audit      internal/domain/audit.go: AuditEvent.Validate
--   Domain/Approval   internal/domain/approval.go: the types, CanAccess, FindAttachment
--   Domain/Json       internal/domain/approval.go: the walk over decoded JSON
--   Domain/Collect    internal/domain/approval.go: ParseAttachments
--   Attachments/Limiter     internal/attachments/service.go: downloadLimiter and its closures
--   Attachments/Readers     limitedReadCloser of downloader.go, expectedSizeReadCloser of service.go,
--                           and in Readers/Release its releaseReadCloser; Readers/Source and
--                           Readers/Stack have the contract between the first two
--   Attachments/Filename    internal/attachments/service.go: SanitizeFilename
--   Attachments/Downloader  internal/attachments/downloader.go: Open, redirects, the dialer; in
--                           Downloader/Addresses validatePublicIP
--   Attachments/Service     internal/attachments/service.go: List and Download
--   Postgres/Tables    internal/postgres: the tables, SQL statements, the end of a transaction
--   Postgres/Devices   internal/postgres/store.go: a login up to its approval
--   Postgres/Sessions  internal/postgres/store.go: exchange, lookup, rotation and end of a session
--   Postgres/Upkeep    internal/postgres/store.go: the audit log and the deletion of old rows
--   Postgres/Lifecycle the calls of the store as steps of its tables
--   Httpapi/RateLimiter      internal/httpapi/rate_limiter.go
--   Approvals/SearchLimiter  internal/approvals/limiter.go; in SearchLimiter/Unpruned the same limiter
--                            without its pruning
--   Domain/Search            internal/domain/approval_search.go
--   Approvals/Library        what internal/approvals calls of Go's library, and the hashes made of it
--   Approvals/Times          the instants of time.Time that it computes with
--   Approvals/Candidates     internal/approvals/service.go: listCandidates, hasRemainingSources
--   Approvals/Catalog        internal/approvals/catalog.go: fetchVisibleCatalog, the order, the lookup;
--                            in Catalog/Cache the cached catalogs
--   Approvals/Cursor         internal/approvals/cursor.go
--   Approvals/Service        internal/approvals/service.go: NewService and the shared checks
--   Approvals/Discovery      internal/approvals/service.go: VisibleCategories
--   Approvals/Authorization  internal/approvals/service.go: authorizeCandidates
--   Approvals/States         internal/approvals/service.go: searchState
--   Approvals/Search         internal/approvals/service.go: Search
--   Auth/Service             internal/auth/service.go: RejectAuthorization, CompleteAuthorization, and the
--                            sessions; the store is the record Repository
--   Dingtalk/TokenCache      internal/dingtalk/token_cache.go: Token, and the end of fetchToken
--
-- State is passed explicitly. A limiter is its map with a list of the closures that it handed out;
-- the service is its limiter, the log of audit events and the bodies that it closed; the store is
-- its tables. An operation returns its result beside the new state. Calls of concurrent requests are
-- lists of calls in the order in which they hold the mutex, or in which their transactions commit; the
-- goroutines of a search are a list of indices in the order in which they look up their approvals. A Go
-- map is listed in the order in which the next loop over it visits its entries.
--
-- Not under the source and so arguments: JSON, base64, SHA-256 and HMAC, strings.ToLower, time.Parse,
-- the HTTP client, the resolver and the dialer, the body of a response (an io.ReadCloser, with the
-- contract of io.Reader as a record of laws) and the answers of the database, which may fail at any
-- call and may lose the answer of a commit that took effect or did not, also that of a statement which
-- commits on its own. The log of the service holds the events that the repository acknowledged:
-- the store may hold one more, whose answer was lost. Interfaces of the source
-- (approvals, downloads, audit, identities, the store of the logins) are records that a service takes.
--
-- Times are natural numbers, and integers where a cursor or a query names one. Sizes are natural
-- numbers: a negative size does not pass the parser, and a content length that is not known is none.
-- A loop runs over a list, but for two: the loop over the pages of the catalog is bounded by the
-- source, at 100 pages, and the number of attempts to reject a login before its deadline is an argument.
--
-- Not modelled: contexts and timeouts, logging, the server's start, the HTTP handler, the parts of the
-- authentication service that build URLs or draw random numbers, the DingTalk client and the configuration.
pub mod Prelude
pub mod Runes
pub mod Domain
pub mod Attachments
pub mod Postgres
pub mod Httpapi
pub mod Approvals
pub mod Auth
pub mod Dingtalk
