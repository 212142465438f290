-- ===== src/Lib.antt =====
-- Verification library of v2node, a proxy node that runs an Xray instance and is managed by a
-- panel.
--
-- The program: for each configured node a Controller (node/) fetches the node and its users from
-- the panel (api/v2board/), builds an Xray inbound for it (core/inbound.go), adds its users to the
-- inbound (core/user.go) and gives the node a limiter (limiter/). From then on two tasks run. The
-- monitor compares the user list with the panel's, deletes and adds users in the core and updates
-- the limiter; the report takes the traffic from the counters (common/counter/) and the addresses
-- from the limiter and sends both; two more renew and report certificates. In between, each
-- connection passes the dispatcher (core/app/dispatcher/): it asks the limiter, registers the link
-- with the user's link manager, wraps it with the user's bucket and counters, sniffs the
-- destination, and hands the link to an outbound. The limiters, counters and link managers are
-- shared by the tasks and the connections. A changed configuration of a node, or of the program's
-- file, asks for a reload, which closes all controllers and the core and starts them anew
-- (cmd/server.go).
--
-- Files, and the code that they model:
--   Prelude        Go's integers, maps, strings and outcomes: a value, an error, a panic, or a hang
--   Panel          api/v2board/user.go (data), Panel/NodeInfo api/v2board/node.go (data,
--                  TLSIsTerminatedAtProxy), Panel/Client GetNodeInfo and api/v2board/panel.go,
--                  Panel/Users GetUserList and GetUserAlive of api/v2board/user.go
--   Format         common/format/user.go: UserTag
--   Limiter        limiter/limiter.go, limiter/dynamic.go and the bucket of common/rate/writer.go:
--                  UpdateUser, AddLimiter, GetLimiter, DeleteLimiter, UpdateDynamicSpeedLimit;
--                  Limiter/Connect CheckLimit, Limiter/Online GetOnlineDevice
--   Counter        common/counter/traffic.go, common/counter/xraytraffic.go
--   Core/Traffic   GetUserTrafficSlice of core/user.go
--   Core/Accounts  the builders of accounts of core/user.go
--   Core/Users     GetUserManager, AddUsers and DelUsers of core/user.go
--   Core/Inbound   core/inbound.go: Protocols the builder of each protocol, Build buildInbound
--   Core/Routes    GetCustomConfig of core/custom.go
--   Core/Nodes     core/node.go, addInbound and removeInbound of core/inbound.go
--   Dispatcher/Links    core/app/dispatcher/linkmanager.go
--   Dispatcher/Connect  getLink and the first half of DispatchLink, core/app/dispatcher/default.go
--   Dispatcher/Sniffer  core/app/dispatcher/sniffer.go, core/app/dispatcher/fakednssniffer.go;
--                  Content the cachedReader and `sniffer`, Override shouldOverride, of default.go
--   Dispatcher/Routing  routedDispatch, and Dispatch and DispatchLink as a whole, of default.go
--   Task           common/task/task.go, as a step relation of its goroutines
--   Node/Diff      compareUserList of node/user.go; Node/Sync the limiter's update by it
--   Node/Monitor   nodeInfoMonitor of node/task.go
--   Node/Reporting reportUserTrafficTask of node/user.go, and the bodies of its requests
--   Node/Fingerprints  common/certificate/certificate.go, node/certificate_report.go, and
--                  ReportCertificate of api/v2board/certificate.go
--   Node/Certificates  the files of node/lego.go and generateSelfSslCertificate of node/cert.go;
--                  Lego the ACME user, requests and renewals of node/lego.go and node/cert.go
--   Node/Lifecycle node/controller.go, startTasks and reloadTask of node/task.go: Start the method Start
--   Node/Fleet     node/node.go
--   Server         reload and the loop of cmd/server.go, New of core/core.go;
--                  Server/Watch the debounce of conf/watch.go
-- A file Tests holds runs on concrete values.
--
-- How state is modelled: a struct is a record, a method a function from the state to the new state
-- and its result. A map is an association list, whose order stands for the order in which Go
-- happens to visit the entries. A pointer that is shared while its target changes is an address or
-- a key. An int or int64 is an integer; a sum or a product that the code forms in int64 wraps
-- around. One call runs at a time: a method is one step, and the orders of steps are the histories
-- of Limiter/History; but what connections add to a counter while a report visits it is an argument
-- of the report.
--
-- Bounds and fuel: the loop of `sniffer` runs on fuel, for two rounds, and it is proved that it
-- ends within them. The two loops of GetUserList run on one more than the number of bytes that the
-- decoder has left, and it is proved that this is enough if each read moves the decoder forward. A
-- decimal has at most 20 digits, which an int of 64 bits never needs.
--
-- Parameters and assumptions: Xray's inbounds, user managers, decoders, builders, protocol
-- sniffers, outbounds and router are parameters; that Xray's common.Close calls the Close method of
-- its argument is the hypothesis CallsClose. Go's regexp package, encoding/json on Xray's types,
-- SHA-256, the decoders of JSON and msgpack (each read of which consumes a byte: MovesForward), the
-- file system (IsLawful: a file that was written exists, and writing removes none; KeepsUsers: it
-- is read back, and a user that was encoded is decoded), crypto/tls and crypto/x509, the ACME
-- library and viper are parameters too. What the panel answers is an argument.
--
-- Not modelled: the HTTP transport, the first start and the command line (cmd/), the constant
-- configuration of the Xray instance and its start (core/core.go, core/outbound.go), the generated
-- protobuf code, the lists of imports (core/distro/), the log file and logging, and the helpers
-- around the operating system (common/systime, common/exec, common/file, common/crypt).
pub mod Prelude
pub mod Dispatcher
pub mod Core
pub mod Counter
pub mod Node
pub mod Limiter
pub mod Format
pub mod Panel
pub mod Task
pub mod Server
