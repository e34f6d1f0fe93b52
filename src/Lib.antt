-- ===== src/Lib.antt =====
-- CartNova is a shop of Go services behind an HTTP gateway. An order is placed at the order service, which
-- asks the user and the product service over gRPC, stores the order in PostgreSQL and publishes OrderCreated
-- over Kafka. The inventory service reserves its items and publishes the result, which the order service
-- turns into a status. The notification service stores a notification for each order event in MongoDB and
-- sends it to the user's websockets. Products are cached in Redis. Requests carry a JWT.
--
-- Files and code:
--   Prelude      numbers (Int: int64 and int4 written out over an integer type), text (Text: strconv,
--                strings.TrimSpace), tests.
--   Go           errors, results and floating-point numbers; float arithmetic is the parameter `Floats`.
--   Json         documents, and how encoding/json stores them into fields.
--   World        a call of a database, of Kafka or of another service is done, refused, or done and not
--                acknowledged, as the parameter `Outside` says for each call; the code runs on a `World` of
--                its tables, of the published events and of the committed offsets. World/Transaction is
--                `Begin`, deferred `Rollback` and `Commit` of pgx. World/Keeps, World/Returns, World/Clear
--                and World/Computes hold the rules by which the services are reasoned about.
--   Events       internal/events/events.go.
--   Http         internal/httpx/httpx.go: responses as values.
--   Auth         internal/auth/auth.go; the JWT library is the parameter `Jwt`.
--   Grpc         the messages of internal/grpcapi/api.go.
--   Inventory    internal/inventory. Tables are migrations/inventory with the statements of the repository;
--                Repository, Service and Handler follow the files of these names. Plan is the specification
--                of a reservation, a function from tables to tables that calls nothing outside.
--   Order        internal/order. Tables, Repository, Service, Consumer (ConsumeInventoryEvents) and Handler.
--                `publishStatusEvent`, which the code calls and no file defines, is a parameter; of
--                `UpdateStatusRequest`, which no file defines either, the field Status is modelled.
--   Notification internal/notification: Hub, Repository, Service and Handler.
--   Product      internal/product: Tables, Repository, Service, Categories (category.go), Handler,
--                CategoryHandler, Server (grpc.go), and Routes, which answers requests in turn as
--                cmd/product-service/main.go routes them.
--   User         internal/user: Tables, Repository, Service, Handler, Server (grpc.go), and Routes of
--                cmd/user-service/main.go. bcrypt is the parameter `Bcrypt`, and the lower case of a character
--                another one.
--   Reply        what the handlers share.
--   Mux          the matching of http.ServeMux and the guards in front of handlers. The target of a request is
--                its decoded segments beside `URL.Path`; a path is clean.
--   Backends     the routes of cmd/user-service, cmd/product-service, cmd/order-service,
--                cmd/inventory-service and cmd/notification-service.
--   Gateway      cmd/gateway/main.go: its routes, proxies and middlewares.
--   Checkout     internal/order in front of internal/product and internal/user; the text of the status error
--                that grpc makes of a server's error is a parameter.
--   Migrations   RunMigrations of internal/database/postgres.go, on any database and any meaning of SQL.
--   Pool         internal/concurrency/worker_pool.go, as a step relation.
--
-- Every theorem about a service holds for every `Outside`, so for every choice of failing calls, unless it
-- says which calls go through. Consumers are functions of the list of what their fetches return; no fuel is
-- used, since every loop of the code is over a list, but for the workers of the pool, whose steps are counted
-- by a measure. Statements of one transaction see no other transaction: the row lock of `ReserveOrder` is not
-- modelled, and neither are the interleavings of its workers: `consume_orders` is one worker that handles
-- its messages in turn, without the channel of jobs and the collecting of errors.
--
-- Not modelled: the construction of Kafka clients in internal/events, `Connect` of internal/database, the
-- wiring, start and shutdown of the mains, the configuration, logging and the bridging of websockets in the
-- gateway, which are input and output, and the service descriptors of internal/grpcapi.
pub mod Auth
pub mod Backends
pub mod Checkout
pub mod Events
pub mod Gateway
pub mod Go
pub mod Grpc
pub mod Http
pub mod Inventory
pub mod Json
pub mod Migrations
pub mod Mux
pub mod Notification
pub mod Order
pub mod Pool
pub mod Prelude
pub mod Product
pub mod Reply
pub mod User
pub mod World
