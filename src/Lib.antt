-- ===== src/Lib.antt =====
-- Verification library of loupe-backend, the service behind a collectors' app.
--
-- Prelude        lists, options and conditionals shared by every part; Prelude/Text
--                models Python's str methods on a list of code points; Prelude/Tables is the tables by key.
-- Platform       code every request passes through (app/platform):
--   Breaker      circuit_breaker.py: CircuitBreaker and its registry. The async
--                context manager guard is split at its yield into enter and leave,
--                so calls that overlap are a list of events (Breaker/Schedule).
--   Upstream     app/integrations/_http/_resilient.py: request_json, a call of the
--                HTTP client under a breaker. The client's reply is a parameter.
--   RateLimit    rate_limit.py: _SlidingWindow.hit with its eviction, and _client_key.
--   Swr          cache_swr.py: swr_get_or_refresh for one key; overlapping refreshes are a
--                list of events, and the loop of a cold miss runs on fuel, one unit a
--                poll, which Swr/Wait shows to be enough.
-- Media          app/social/byte_range.py: the Range header and the answer to it.
-- Social         app/social/services:
--   Graph        graph.py and _common.py: follow, unfollow, remove_follower.
--   Inbox        graph.py: requests answered by their target, and the sweep of the
--                requests to a public account.
--   Session      any sequence of these calls.
--   Moderation   app/social/moderation.py: the verdict on a text, from the provider's answer.
--   Safety       safety.py: the cases that verdicts open (enforce), that users open
--                (Safety/Report), and their resolution (Safety/Resolve).
--   Comments     comments.py: comments, replies and likes; Comments/Thread is their pages.
-- Market         app/services/market:
--   Alerts       price_alert_service.py: alerts on a card's price; Json is the metadata.
--   History      app/tasks/price_snapshot.py: the daily points of a card's metadata.
-- Account        app/services/auth and app/auth:
--   Login        user_service.py: authenticate_with_password, split into the part that
--                reads the row (check) and the part that writes it (settle), so that
--                attempts overlap; change_password, bump_token_version.
--   Reset        password_reset_service.py, and dependencies.py: _resolve_user.
--   Phone        app/utils/phone.py: the normal form of a phone number.
--   Mfa          mfa.py, mfa_service.py and the guard of the route mfa_setup.
-- Ocr            app/services/ocr:
--   Budget       budget.py, and card_identifier.py: the steps of identify that spend, split at
--                the call of the provider, so that identifications overlap.
-- Scan           app/services/collection/scan_service.py: the jobs and their owners' requests.
--   Worker       app/tasks/scan_processor.py, and complete_scan of
--                app/routers/collection/scans.py.
--   Steps        the transactions of overlapping runs, as a step relation.
-- Collection     app/services/collection/collection_service.py: the binders of graded cards.
--   Calls        its calls; Session holds any sequence of them, with what users do to
--                their cards elsewhere.
-- OpeningHours   app/services/stores/opening_hours.py: the text of a store's hours, on Latin-1
--                text; Week holds _expand_days and parse.
-- Billing        app/services/billing_service.py and entitlement_service.py:
--   Subscription the Stripe webhook: _apply_subscription; handle_event and the other
--                handlers are in Subscription/Handlers.
--   Checkout     start_checkout, create_subscription, _ensure_customer, refund_latest.
--   Entitlement  entitlement_service.py: what the plan allows, and the gates.
--
-- Correspondence. A table is a list of records and an operation takes the tables and
-- returns them with its answer and the notices it sends; each call is one transaction,
-- so the handlers of a lost commit race are not modelled. Identifiers are numbers, in
-- place of UUIDs, and times are numbers of the clock's ticks, read once where the code
-- reads the clock once. Python's int() on digits keeps CPython's limit of 4,300 digits.
-- Scores and prices are natural numbers of a small fixed unit, in place of floats and decimals.
-- Third-party code (HTTP replies, Stripe, hashing, MACs, encryption, TOTP) is an argument of the
-- definitions that call it. Loops are structural recursion, apart from
-- that of Swr and a client that follows the cursors of a thread, for which enough fuel is shown.
--
-- Not modelled: the HTTP and database layers, and the parts of the service that are
-- queries, templates or clients of external providers.
pub mod Prelude
pub mod Platform
pub mod Media
pub mod Social
pub mod Market
pub mod Ocr
pub mod Scan
pub mod Collection
pub mod OpeningHours
pub mod Billing
pub mod Account
