-- ===== src/Lib.antt =====
-- Verification of the machine controller manager's provider for OpenStack.
--
-- The program answers the requests of a machine controller for one machine class at a time. A
-- request carries the provider spec of the class, a secret and a machine. The driver (pkg/driver)
-- decodes the spec, validates it with the secret (pkg/apis/validation), signs in with the secret and
-- makes clients for Nova and Neutron (pkg/openstack), and runs an executor with these clients
-- (pkg/driver/executor), which creates, deletes and finds servers. What the executor answers is
-- turned into a response or a status.
--
-- Files, and the code that they model:
--   Base, Text         helpers: texts, lists, Go maps, `int`, and the functions of package strings
--   Errors             error values, `errors.Is` and `IsNotFoundError` (pkg/driver/executor/errors.go,
--                      pkg/openstack/errors.go)
--   Action             Go functions that change the world, return an error or panic; Laws takes a
--                      finished run apart, Safety and Respects put together runs that do not panic
--                      and runs that only move the world along a preorder
--   Config, Secret     the provider configuration (pkg/apis/openstack/types.go), secrets and their
--                      keys (pkg/apis/cloudprovider)
--   Cloud              the interfaces `Compute` and `Network` (pkg/openstack/types.go)
--   Executor           pkg/driver/executor/executor.go and utils.go, a module for each operation:
--                      Networks is `resolveServerNetworks`, Deploy `deployServer`, Wait
--                      `waitForStatus`, Patch `patchServerPortsForPodNetwork`, Create `CreateMachine`,
--                      Delete `DeleteMachine` and `deletePort`, Find the look-ups and `ListMachines`,
--                      Utils the provider IDs; Respects shows that the operations keep what all calls
--                      of the cloud keep, and Store says what a cloud promises that is a store of
--                      servers, from which servers go some time after their deletion
--   Validation         pkg/apis/validation/validation.go
--   Credentials        pkg/openstack/credentials.go
--   Clients            Factory with Logger, Nova and Neutron: pkg/openstack/factory.go, nova.go,
--                      neutron.go; Growth is about an executor that runs over both clients
--   Driver             pkg/driver: Requests and Volumes are the requests of driver.go, Migrate is
--                      `GenerateMachineClassForMigration` with `migrateMachineClass`, Conversion
--                      the conversions of pkg/apis/openstack/v1alpha1
--   Deepcopy           pkg/apis/openstack/zz_generated.deepcopy.go, in a memory of cells
--   Registration       register.go, defaults.go and zz_generated.defaults.go of pkg/apis/openstack and
--                      its v1alpha1, `RegisterConversions`, and pkg/apis/openstack/install
--   Start              cmd/machine-controller/main.go
--   Tests              a small cloud, and each theorem at an example
--
-- Names are those of the code in another spelling: `resolve_server_networks` is
-- `resolveServerNetworks`. A loop over a slice is a recursion on a list; a part of a function that
-- has a name of its own says so in its comment.
--
-- State. Nothing is known of the world `W` outside the program: each call of `Compute` or `Network`
-- takes a world to an answer and a world, and may change it in any way. The program itself keeps no
-- state but the counters of its clients. A Go map is a list of pairs in the order of one iteration,
-- which may be any. References matter for copies alone: there a pointer, a slice or a map is nil or the
-- address of a cell, and everywhere else it is what it leads to.
--
-- A cloud that is a store of servers (Executor.Store) is a hypothesis of the theorems that name it. A
-- creation stores a server under the ID of the answer, with the name and the metadata of the request;
-- nothing else of the answer is used. A listing shows what is stored, and what a look-up reports as
-- missing or `DELETED` is not stored. The store settles at any other call, and between requests: no
-- server comes, and none goes but one that is being deleted, which may still be seen for any time.
--
-- Bounds. A Go `int` is an integer without bounds, since the only one is the size of a disk. Secrets
-- and user data are bytes in Go and text here. `wait.Poll` is a parameter: the condition runs in
-- rounds, at least one, and at most as many as the library finds time for, whatever that number is.
-- No other loop waits. The search for the depth of a log message has the 11 rounds that the source
-- gives it.
--
-- Parameters: `wait.Poll`, `ErrorList.ToAggregate` (no error exactly for the empty list), the
-- decoder of provider specs, gophercloud and the TLS library, `runtime.Caller` and klog, schemes and
-- their builders (functions run in order, what is registered is kept), and `app.Run`.
--
-- Not modelled: log messages but for the logger of HTTP requests; the copies of the v1alpha1 types,
-- which are those of the internal types in another package; mocks, vendored code.
pub mod Base
pub mod Text
pub mod Errors
pub mod Action
pub mod Config
pub mod Secret
pub mod Cloud
pub mod Executor
pub mod Validation
pub mod Credentials
pub mod Clients
pub mod Driver
pub mod Deepcopy
pub mod Registration
pub mod Start
pub mod Tests
