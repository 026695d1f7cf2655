-- ===== src/Lib.antt =====
-- A guest WLAN's captive portal (addon/src/captive_portal of the repository): guests enter a voucher
-- code or a booking code of a rental, and their device is authorized with the WLAN controller until
-- the grant ends.
--
-- The parts and their files:
--   Time            utils/time_utils.py: instants in microseconds, and the two roundings
--   Models          models/: the rows of vouchers, grants, audit entries, integrations and events
--   Store           persistence/: the tables (Database) and the queries of two repositories
--   VoucherService  services/voucher_service.py: redeem, revoke, delete, expire_stale_vouchers, and
--                   in VoucherService/Create the retries of create
--   GrantService    services/grant_service.py: create, extend, revoke
--   GrantExpiry     services/grant_expiry_service.py: one pass over the due grants
--   VoucherPurge    services/voucher_purge_service.py: the deletion of old vouchers
--   RateLimiter     security/rate_limiter.py
--   Cache           services/cache_service.py
--   Codes           services/unified_code_service.py
--   Vlan            services/vlan_validation_service.py
--   Bookings        services/booking_code_validator.py: the event that a code selects; and in
--                   Bookings/Authorize api/routes/guest_authorization/bookings.py
--   Guest           api/routes/guest_authorization/ and the handlers of api/routes/guest_portal.py: the
--                   flow of a guest's request, in Guest/Flow; Guest/Controller and Guest/Voucher are its
--                   steps, Guest/Errors the message of the error page
--   Csrf            security/hmac_csrf.py: the token of the guest's form
--   Sessions        security/session_middleware.py: the administrators' sessions
--   Redirects       services/redirect_validator.py and the choice of the destination
--   GrantRoutes     api/routes/grants.py: the grants in the admin's API
--   AdminAccounts   api/routes/admin_accounts.py: the administrators' accounts
--   Rental          integrations/rental_control_service.py: a poll of Home Assistant's events, with
--                   persistence/rental_control_event_repository.py and services/cleanup_service.py
--   OpenApi         controllers/tp_omada/openapi_client.py: the token cache and the retries
--   Network         utils/network_utils.py and api/routes/guest_authorization/mac_address.py
--   Base            shared types, Boolean tests and the lemmas on lists and text
--   Samples, Tests  concrete rows, and the theorems applied to them
--
-- The services read and write one Database; an operation takes it, the current time and its
-- arguments, and returns what the method returns or raises beside the database that it leaves. A
-- method runs from its first read to its commit as one step. In delete, process_once, the guest flow
-- and the admin's revocation of a grant, where another session can commit in between, a parameter
-- `meanwhile` is what the others do; the retries of create, which sleeps between its attempts, all
-- see one table, and so do the requests to the administrators' accounts. The clock that the limiter's
-- cleanup reads again is an argument of is_allowed; the guest flow gives it the same reading. The
-- random source of a new code and the controller's replies are parameters too, and so are Python's
-- `int`, `str.upper`, `str.lower`, `urlparse`, HMAC and Base64 and SQLite's `lower` on text.
--
-- Numbers are natural; an argument that the code tests for its sign is an integer. Instants count
-- from the year 1, the least that datetime holds; a purge's cutoff that would fall below raises. The
-- upper end of datetime is not modelled. Loops are structural; the retries of create run down from
-- max_retries as the code's range does. The loop that strips tags from a message runs on fuel, of
-- which one more than the message has characters is enough, and the retry loop of the controller's
-- client on five, for four tries and one more after a refused token.
--
-- Not modelled: HTTP, the pages, the controller's adapters and its legacy client, the client of Home
-- Assistant, the schema and its migrations, passwords, configuration, and log messages.
pub mod AdminAccounts
pub mod Base
pub mod Time
pub mod Models
pub mod Store
pub mod VoucherService
pub mod GrantService
pub mod GrantExpiry
pub mod VoucherPurge
pub mod RateLimiter
pub mod Cache
pub mod Codes
pub mod Vlan
pub mod Network
pub mod Bookings
pub mod Redirects
pub mod Guest
pub mod GrantRoutes
pub mod Sessions
pub mod Csrf
pub mod Rental
pub mod OpenApi
pub mod Samples
pub mod Tests
