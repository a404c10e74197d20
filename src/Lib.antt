-- ===== src/Lib.antt =====
-- Verification of the cloud service for coffee machines and other devices.
--
-- The program is a set of managers that `src/main.cpp` wires together. Devices report over MQTT;
-- the managers keep the state in memory: devices of all tenants, orders, active faults, recipes,
-- firmware upgrades, organizations and accounts. Each manager is called by the HTTP handlers
-- and the router of MQTT messages.
--
-- Files:
--   Common, Common/*       tests, lists, integers, association lists and strings
--   Status                 include/dev_sys/common/status_codes.h: `StatusCode`, `status_message`
--   Types/*                include/dev_sys/common/types.h: the records, with `new_...` for the defaults
--   Json                   include/dev_sys/common/types.h: `JsonHelper`; Json/Fields: what its search
--                          finds; Json/Numbers, Digits: the numbers that are printed and read
--   Topic                  include/dev_sys/common/types.h: `ParsedTopic`; Topic/Uplink, Downlink: the proofs
--   Config                 src/app/config/config_manager.cpp: `ConfigManager`
--   Order                  src/app/order/order_manager.cpp: `OrderManager`, one function per method
--   Order/Run              histories of calls as lists; Order/Ledger, Bounds and Lifecycle: the proofs
--   Device                 src/app/device/device_manager.cpp: `DeviceManager`, a map of maps
--   Device/View            what each operation does to `get_device`; Device/Consistent and Calls: the
--                          invariant; Device/Offline: the offline check; Device/Counts: the counts
--   Fault                  src/app/fault/fault_detector.cpp: `FaultManager`; Fault/Resolve: the proofs
--   Recipe                 src/app/recipe/recipe_manager.cpp: `RecipeManager`; Recipe/Lookup, Run: the proofs
--   Ota                    src/app/ota/ota_manager.cpp: `OtaManager`; Ota/Push, Grayscale, Registry: the
--                          proofs; Ota/Payload: the notification as a device reads it
--   Org                    src/app/organization/org_manager.cpp: `OrgManager`; Org/Spots, Wellformed and
--                          Calls: the places of the organizations and the invariant; Org/Paths, Scope:
--                          the search by paths; Org/Tree: `build_tree`; Org/Removal, Rooted: the deletion,
--                          and which calls keep every parent
--   Account                src/app/organization/account_manager.cpp: `AccountManager`; Account/Roles: the
--                          permissions; Account/Calls: the invariant; Account/Tokens, Granted, Login: the proofs
--   Ulid                   include/dev_sys/common/types.h: `UlidGenerator`; Ulid/Order: the order of the ids
--   Activation             src/app/device/device_activation.cpp: `DeviceActivation` over an interface of the
--                          database; Activation/Store: what it relies on of it; Activation/Again: the proofs
--   Catalog                src/app/device/device_type_manager.cpp: `DeviceTypeManager` over an interface of
--                          the database; Catalog/Typed: the invariant
--   Api                    src/middleware/communication/api_server.cpp: the routes and the responses of
--                          `ApiServer`; Api/Routes: the proofs; Api/Parse: `parse_request`; Api/Parse/Line:
--                          the request line
--   Router                 src/app/message_router.cpp: `MessageRouter`; Router/Safety: the invariants of the
--                          managers under messages; Router/Answers: which messages are
--                          handled; Router/Uplink, Reports: what messages of a device do
--   Log                    src/middleware/storage/log_manager.cpp: `LogManager` over an interface of the file
--                          system; Log/Recent: `export_recent`; Log/Files: the laws of the file system,
--                          and one in memory; Log/Rotate, Write, Escape, Entry, Export: the proofs
--   Handlers               src/main.cpp: what its handlers share, `Reply` with the answer or an exception
--   Handlers/Orders, Recipes, Orgs, Auth, Accounts, Devices, Tenants, Faults
--                          src/main.cpp: one function for each handler of HTTP requests; in them Steps:
--                          the calls of the manager that a handler makes; Handlers/Auth/Session: a
--                          login and a profile; Handlers/Devices/Scope, Handlers/Orgs/Filters: the lists
--   Handlers/Via           what a handler keeps if the calls that it makes keep it
--   Service                src/main.cpp: the managers together, one step for a request; Service/Safety:
--                          the invariants under requests; Service/Numbers: exceptions
--   Order/Seeds, Fault/Seeds, Recipe/Seeds, Ota/Seeds, Org/Seeds, Account/Seeds
--                          the records that the `seed_mock_data` functions write out
--   Examples/*             tests, and the theorems at concrete inputs
--
-- A method that changes a manager takes the manager's state and returns the new one, with the
-- status code and what it hands to the database or to a callback. `std::string` is String, with a
-- Boolean test for `==`. `std::unordered_map` and `std::map` are association lists with one entry
-- for a key, in an order that a theorem never fixes. `int32_t` and `int64_t` are unbounded
-- integers; `std::stoi` and `std::stoll` refuse what is out of the range of `int` and of 64 bits,
-- the differences of times, in the offline check and the export of the log, do not overflow for
-- times since the epoch and up to a million hours, and the counts fit. The clock, what the database answers and `std::hash` are
-- arguments. Dereferencing the end of a map is the answer none, and so is an exception of
-- `std::stoi`; for `verify_token` it is the verdict `thrown`, and for a handler the reply `thrown`.
-- Loops are structural recursions over lists and texts. The digits of a printed number are made on fuel: the number itself, which has at most as many digits as it is large.
-- `build_tree` runs on fuel, as much as the next id of an organization says, which is enough
-- because a child has a larger id than its parent. The account manager is given the state of the
-- organization manager. Texts are walked by characters, and the body of a request is counted in
-- them, which are the bytes of an ASCII body; all that is searched for is ASCII, so that this
-- finds what a walk over the bytes does.
--
-- Calls follow each other: a method is one step. Most methods of the device, fault and OTA
-- managers hold a lock for their whole body, which makes them one, and so do those of the
-- organization manager and, but for `login`, of the account manager; `check_offline_devices`,
-- `push_to_device` and the grayscale push lock in parts, and the order manager, the recipe manager
-- and the router not at all.
--
-- A handler of HTTP requests takes the request and the manager that it can change, and returns the
-- response with the manager, or `thrown` if an exception leaves it; nothing catches it in the source,
-- so the process ends there. Which handler a request reaches is left open in Service, since it depends
-- on the order of an unordered map. The numbers of a response are the codes that the source writes. A recipe whose
-- device type has no enumerator is kept with the type `other`, where the source keeps the number.
--
-- Not modelled: the database, sockets, MQTT and TLS, which are external libraries and I/O; the
-- hardware abstraction, which is stubs; console output; the sockets of the HTTP server; in
-- `src/main.cpp` the handlers of device types and models, of the activation, the status, the
-- firmware files and upgrades, the tenant keys, the health and the configuration, the timers and
-- the wiring, which builds the managers and registers the handlers.
pub mod Common
pub mod Status
pub mod Types
pub mod Json
pub mod Topic
pub mod Config
pub mod Order
pub mod Device
pub mod Fault
pub mod Recipe
pub mod Ota
pub mod Org
pub mod Account
pub mod Ulid
pub mod Api
pub mod Activation
pub mod Catalog
pub mod Router
pub mod Log
pub mod Handlers
pub mod Service
pub mod Examples
