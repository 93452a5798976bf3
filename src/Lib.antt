-- ===== src/Lib.antt =====
-- A model of the services of SmartDeployLinux and the theorems about it.
--
-- The auth-broker (services/auth-broker) hands out deployment codes and redeems them: a redemption
-- marks the code, creates a deployment job and mints a boot token. The API (services/api) moves the job
-- through its states as the installer reports, checks the tokens, and chooses driver packs. The edge
-- agent (services/edge-agent) mirrors the images of a site. The services share one PostgreSQL database.
--
--   Prelude        tests on numbers, lists, SQL statements on tables, keys, durations, texts
--   Schema         the rows of the shared tables, and which statements of an operation fail
--   Valid          the keys and UNIQUE columns of the tables
--   Jobs           TransitionJob, AdvanceJob, MarkBootTokensConsumedForJob
--                  (services/api/internal/store/store.go); Jobs/Shape describes the graph of states
--   Tokens         the queries on one_shot_tokens (store.go), the digests of
--                  services/api/internal/tokens/tokens.go, base64url
--   Codes          services/auth-broker/internal/codes/codes.go
--   Broker         the queries of services/auth-broker/internal/db/db.go; Broker/Redeem and Broker/Issue
--                  are handleRedeem and handleIssueCode of services/auth-broker/internal/broker/broker.go,
--                  cut into stages where the handler returns; Broker/Issue has requireInternalSecret too
--   PhoneHome      appendDeploymentEvent (services/api/cmd/api/render.go) and cancelJob (operator.go)
--   Drivers        services/api/internal/driverpack/match.go; Drivers/Applies says what its rules mean
--   Edge           services/edge-agent/cmd/edge-agent/cache.go; Edge/Flight has the requests at once
--   Menu           MintMenuBootToken (store.go)
--   Roles          GrantRole, RevokeRole, CountOtherAdmins (store.go) and their handlers
--                  (services/api/cmd/api/users.go)
--   Wake           the queue of wake requests (store.go), its handlers (services/api/cmd/api/wake.go)
--                  and the packet (services/edge-agent/cmd/edge-agent/wol.go)
--   Bus            services/api/internal/eventbus/eventbus.go
--   Worker         runOnce and its queries (services/worker/cmd/worker/main.go)
--   Access         permissions and API tokens (services/api/internal/auth/auth.go and resolver.go,
--                  services/api/internal/store/apitokens.go, services/api/cmd/api/apitokens.go)
--   Packs          blobs and driver packs (store.go, services/api/cmd/api/driverpacks.go, createBlob of
--                  services/api/cmd/api/ingest.go in Packs/Ingest); Packs/Match is
--                  MatchDriverPacks and ListDriverPacks
--   Fetch          the queue of vendor downloads (store.go), the vendor's catalog
--                  (services/api/internal/vendorcatalog/vendorcatalog.go), its handlers and a run of a
--                  download (services/api/cmd/api/vendorpacks.go)
--   Inventory      machines, images, profiles, templates and sites (store.go) with their handlers
--                  (services/api/cmd/api/render.go, operator.go, ingest.go, sites.go) and Lookup of
--                  services/api/internal/catalog/catalog.go
--   Inventory/Bundle and Inventory/MenuDeploy
--                  LookupRenderBundle (store.go) and renderMenuDeploy (services/api/cmd/api/menu.go)
--   Render         restoreLayoutEnv and mirrorRewrite (services/api/cmd/api/render.go)
--   Tests          runs of the definitions and the theorems at concrete inputs
--
-- The state of the services is the record Db of tables, each the list of its rows; an operation takes
-- it and returns the next one with its answer. The tables of roles (Roles), the queue of wake requests
-- (Wake) and the event bus (Bus) have a state of their own, and the worker takes Db and the queue. The
-- accounts with their API tokens (Accounts), the catalog of driver packs (Catalog), the vendor
-- downloads (World: their queue, the catalog and the object store), the machines with what refers to
-- them (Inventory, which holds Db) and the sites are states of their own too.
-- What comes from outside is an argument: the clock, the source address, the decoded body, random
-- bytes, new ids, the answer of the overlay network, the digest functions, the parsers of UUIDs and
-- prefixes, the case tables of Unicode, the verifier of the identity provider, the decoders of JSON
-- and XML, the presigner of the object store, the cast to macaddr and the operators of jsonb, the
-- answers of the origin, of the vendor and of the webhook, and the faults of the disk. http.ServeMux
-- hands on clean paths only. Each SQL statement may fail: `fails` says which do, and a failed one
-- changes nothing. A statement is atomic; what two requests do between each other's statements is
-- modelled in Jobs/Race, Edge/Flight and Bus/Delivery only.
--
-- UUIDs and addresses are numbers, times are nanoseconds on ℕ, and a time.Duration is a 64-bit pattern.
-- Text that the code takes apart is the list of its code points or bytes. Generate takes its bytes from a
-- list and fails where it runs out, as rand.Read does where the source fails; six bytes below 248 are
-- enough. No other loop needs fuel. The sizes in the image cache are taken to stay below 2 ^ 63.
--
-- Not modelled: the audit rows (written, never read by this code), TLS and routing, the templates of
-- answer files and the text of menus, the texts of notifications, the listings that only sort by text, the
-- reports, the issuing proxy of the API, bootstrap sticks, captures, the signing of URLs, the clients
-- (services/sdk, services/deployctl, services/terraform-provider-deployserver),
-- the web pages.
pub mod Prelude
pub mod Schema
pub mod Jobs
pub mod Tokens
pub mod Valid
pub mod Codes
pub mod Broker
pub mod Drivers
pub mod Edge
pub mod PhoneHome
pub mod Menu
pub mod Roles
pub mod Wake
pub mod Bus
pub mod Packs
pub mod Fetch
pub mod Access
pub mod Inventory
pub mod Render
pub mod Worker
pub mod Tests
