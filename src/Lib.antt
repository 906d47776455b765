-- ===== src/Lib.antt =====
-- HYDRA-ULTIMATE manages the proxies of a server: a state file names users and protocols, plugins drive
-- the protocols' programs, and every change of the state is carried to the plugins and to the host or
-- undone. This library models the parts of hydra/ that decide what happens: what is called, in which
-- order, what is written, and what is undone.
--
-- Base: names shared by all files: tests and lists over the native numbers, Python's dict as a list of
--   pairs in insertion order, exceptions and code that changes a world and may raise (`Exec`), the stable
--   sort, JSON values, and the text methods that the code calls.
-- Transaction: hydra/core/apply_transaction.py (`ApplyTransaction`) and
--   hydra/core/transaction_helpers.py (`state_transaction`). Every other part that changes something
--   registers its compensations here.
-- State: hydra/core/state_models.py: `AppState`, `User`, `PluginState`, `get_protocol`, `find_user`,
--   `add_user`. The fields that the modelled code only copies are kept as documents.
-- Runtime: hydra/core/state_runtime.py (`desired_payload`, `merge_runtime_state`). A dict is compared
--   without regard to order (Base/Equality).
-- Persistence: hydra/core/state.py. A save, a restore and an update are transactions on the document,
--   which stands for the file under the lock; Persistence/Files has the single file operations of a
--   save. `validate_state` is a parameter of them, and so are the keys that are generated. A set of
--   protocols is taken in the order of its dicts.
-- Users: hydra/services/user_lifecycle.py (`UserLifecycleOperations`), all operations. A user is an
--   object in a store (Users/Memory) that the state refers to, so a plugin hook that writes to the user
--   writes to the state; `copy.deepcopy` and `restore_state_in_place`
--   (hydra/services/configuration.py) read and allocate such objects.
-- Lifecycle: hydra/services/plugin_lifecycle.py (`PluginLifecycleOperations`), all operations, on the
--   same store; Lifecycle/Reinstall has `reinstall`, and Lifecycle/Setup
--   hydra/services/protocol_setup.py (`prepare_enable`, `prepare_enabled`), which every apply runs
--   first and which writes to the configurations of protocols.
-- Plugins: hydra/plugins/catalog.py and hydra/plugins/invoker.py as far as they choose plugins and users,
--   and in Plugins/Executor hydra/plugins/executor.py (`collect_fragments`, `apply_enabled`,
--   `health_all`).
-- Configuration: hydra/services/configuration.py (`ConfigurationApplier.apply`), one function per stage
--   in Configuration/Apply. Sing-Box, nftables, the router and the plugins are the record `Services`.
-- Traffic: hydra/services/traffic.py (stored totals out of counters that may start again, resets, quota)
--   and, in Traffic/Connections, hydra/services/traffic_accounting.py (`apply_connection_snapshot`);
--   Traffic/Refresh has `refresh_user_traffic`, with the plugins' counters as a parameter.
-- Sessions: hydra/services/device_sessions.py (`update_sessions`, `connections_to_close`), and
--   in Sessions/Active hydra/services/active_connections.py (`tracked_active_connections`).
-- Sync: hydra/services/sync_cycle.py (`_sync_user_limits`, as far as it blocks) and
--   hydra/services/user_access.py.
-- Routing: hydra/core/sni_router_planning.py (`get_quic_owner`, `_validate_unique_domains`,
--   `_route_port`, `_plugin_route_backend`).
-- Reconciliation: hydra/services/reconciliation.py.
-- Notifications: hydra/services/security_notifications.py (`notification_allowed`, `in_quiet_hours`).
-- Creators: hydra/services/creator_sessions.py (`CreatorSessionManager`), the drivers being parameters.
-- AntiDpi: hydra/plugins/antidpi, one module per file: model.py (AntiDpi), detection.py (Evidence and
--   Detection), detector_service.py (Detector: `observe_event`) and management.py (Management: `unban`,
--   `manual_ban`, `release_whitelisted_bans`, `sync_host_whitelist`).
--   The firewall, the parser of addresses and the membership in a network are the record `Host`, and
--   `IsIpset` says what is documented of ipset. A document is read with the defaults of its keys, and is
--   taken to be of the form that the detector writes.
-- ProxyHeader: hydra/services/subscriptions/proxy_protocol.py; a connection is the list of the pieces that
--   come over it, and `socket.inet_ntop` is a parameter.
-- Devices: hydra/services/subscriptions/devices.py (`register_subscription_device`).
--
-- Plugin hooks, saving, applying, the provider of certificates, `str` of a value, services of the
-- host, which exceptions are an `OSError`, the attribution of a connection and the mapping of a
-- relayed address are parameters. Loops are structural recursion over lists; the loop that reads from
-- a socket has as many rounds as it wants bytes, which is enough since each round takes one at least.
-- Python's integers are unbounded and are natural numbers or integers here. A time is a whole number
-- of seconds; a float of the state is a dyadic number. `lower` and `upper` change ASCII letters alone,
-- and the letters of a creator's name are ASCII letters. The logger of a rollback raises nothing, and
-- its callbacks do not look at the phase of their transaction. A total that traffic is credited to is
-- a number that is not negative, and texts of numbers are in ASCII digits. The loop over the users in
-- `enable` runs over the list at its start.
--
-- Not modelled: the lock and the JSON of the state, the import of old formats, the user interfaces,
-- the Telegram bot, the generation of documents for other programs, and the plugins themselves but for
-- the decisions of AntiDPI, since they drive programs outside the repository. Neither are a document
-- of AntiDPI that cannot be read (`AntiDPIStateCorruptError`), the reset of the report period,
-- `validate_state`, the rest of the router's planning, the other phases of the sync cycle and the
-- delivery of notifications.
pub mod Base
pub mod Transaction
pub mod State
pub mod Users
pub mod Plugins
pub mod Traffic
pub mod Lifecycle
pub mod Sessions
pub mod Devices
pub mod Configuration
pub mod Sync
pub mod Reconciliation
pub mod Routing
pub mod Notifications
pub mod Creators
pub mod Runtime
pub mod Persistence
pub mod AntiDpi
pub mod ProxyHeader
