-- ===== src/Lib.antt =====
-- Komi's API: a server for restaurants, in which one process serves many businesses (tenants). This
-- library models its inventory, its authentication, its tenants with their branches and users, its
-- products with their categories, its menus and its movements.
--
-- The parts and how they interact. A request passes two guards: JwtAuthGuard, which verifies its
-- token and looks up the session that it names, and TenantScopeGuard, which compares the tenants
-- that the request names with the user's. Sessions are opened by login, exchanged by renewal and closed
-- by logout; all three go through the session aggregate and its table. The inventory's use cases
-- load an item with its batches and minimums, call one method of the aggregate, save it and publish the
-- events that it registered; the handlers of those events write the movements of the stock. The
-- requests on tenants, branches, users, categories, products and menus go through an aggregate and a
-- table in the same way. What the server logs of a request goes through the sanitizer.
--
-- Base: the library's names passed on, Boolean tests, lists, results and JavaScript's strings.
--   Apart: rows of which no two clash, and what keeps them so.
-- Shared: src/shared/value-object.
--   Decimal: what is used of decimal.js, a parameter, and its documented behaviour as laws.
--   Quantity, Money: quantity.value-object.ts and money.value-object.ts. Failure: the exceptions.
--   Value: a UUID, and a text that is trimmed and has a least and a greatest length.
--   Status: src/shared/domain/status.
-- Auth: src/auth.
--   Session: domain/session.aggregate.ts. Store: the session repository, a statement to a function.
--   World: the state that the use cases act on, and their ports. Issuer: session-issuer.ts with the
--   two issuers of tokens. Login, Refresh, Logout: the use cases' `execute`.
--   JwtGuard, TenantScope: the guards' `canActivate` with all that it calls.
-- Inventory: src/context/inventory.
--   Batch, Event, Item, Stock, Minimum: the entity of a batch, the events, and the methods of
--   inventory-item.aggregate.ts (`recivedBatch` is `received_batch`). Drain: the comparator FEFO and
--   the loop that consumption, waste and counts share; the source writes it three times, here it is
--   one function over what it does to a batch.
--   Repository: `save` and `findById` of inventory-item.repository.ts on three tables. UseCase: the
--   use cases of consumption, waste, counts and minimums. Arrival: receive-stock. Catalogue:
--   update-item, with the value objects of a name and a unit. Neither reads the text of a date.
--   Thousandths: a small decimal library on which the tests run.
-- Movements: src/context/inventory-movements.
--   Movement: the aggregate and record-movement. Handlers: the handlers of the four events; what they
--   log is a list. Trace, Recorded, Audit: proofs, from a consumption to its lines.
-- Products: src/context/products.
--   Product: product.aggregate.ts. Recipe: an ingredient. Profitability: the calculator.
--   Sku: the next code of a tenant. Table: the rows and the repository. Requests: the use cases of
--   creation, update and deletion. Stored: proofs on what the table holds.
-- Categories: src/context/product-categories. Branches: src/context/branch. Tenants:
--   src/context/tenants. In each, the module named for the aggregate holds it and its value objects,
--   Table the rows with the repository, Requests the use cases' `execute`; the other modules are
--   proofs on a table through requests. Branches.Like: `escapeLike`, and ILIKE of PostgreSQL, a parameter with
--   its documented behaviour as laws.
-- BranchConfigs: src/context/product-branch-config.
--   Config: the aggregate, its row and the mapper. Requests: the use cases of configuration and removal,
--   the repository and the adapters.
-- Menus: src/context/menus.
--   Menu: the aggregate and its values. Builder: menu-tree.builder.ts, where an object that is shared
--   is named by the id of its menu, and `read_graph` follows the names. Sidebar.Levels: the tree with
--   no loop. Table: the rows, the mapper, the repository and the use cases.
-- Users: src/context/user.
--   Values: the value objects, with their patterns as functions on characters. User: the aggregate.
--   Table: the rows and the repository. Requests, Account: the use cases' `execute` and the adapters.
-- Logging: src/infrastructure/logging/sanitizer.util.ts.
-- Each part's proofs are its child modules; the tests are in the modules Tests of each part,
-- Auth.GuardTests, Inventory.EntryTests and Products.RequestTests.
--
-- State is passed explicitly. A use case of Auth is a function from a world to a result and a world, so
-- what was written before an exception stays written; a method of the item returns a result. Dates are
-- milliseconds, identifiers and the value objects of one text are texts. The clock, the UUIDs and the
-- random source are sequences or arguments. Objects shared between two arrays are known by their ids.
--
-- Bounds: decimal.js keeps twenty significant digits, so the laws hold for zero or more thousandths
-- below 10 ^ 20. The guard of tenants looks through at most seven containers (MAX_DEPTH is 6). All
-- loops are structural recursion, but Products.Sku.digits, which prints a number n on fuel n + 1: each
-- round divides by ten, so that it is enough. The objects of the menu are read to a depth, and three is
-- enough, for a menu has three levels.
--
-- Not modelled: controllers, DTO validation, cookies' writing and module wiring, which are glue or I/O;
-- argon2, SHA-256, the uuid package, the signature of tokens and the database, which are ports or
-- parameters; roles; the searches, which only read; the alerts on stock; the data of the seed. An
-- identifier is compared as a text, while the database also takes the same UUID in capitals.
pub mod Base
pub mod Shared
pub mod Auth
pub mod Inventory
pub mod Movements
pub mod Products
pub mod Menus
pub mod Users
pub mod Logging
pub mod BranchConfigs
pub mod Categories
pub mod Branches
pub mod Tenants
