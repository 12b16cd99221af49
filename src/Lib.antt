-- ===== src/Lib.antt =====
-- MSYS core: the Python supervisor and mIPC broker under msys_core/.
--
-- The supervisor (msys_core/msysd.py) loads package manifests and a profile, builds from them a
-- catalog of roles and one of services, starts components, and authorises and routes the packets
-- of mIPC. The other files are pure, and called by it. Each file has a module of its name here:
--
--   msys_core/mipc_acl.py          Acl: permissions of calls and events
--   msys_core/roles.py             Roles: candidates of a role, preferences, leases
--   msys_core/services.py          Services: providers of interfaces and capabilities
--   msys_core/manifest.py          Manifest: components and what they provide, package sets
--   msys_core/isolation.py         Isolation: the request that a component makes, and its parser
--   msys_core/profile_contract.py  ProfileContract: the validator of profiles
--   msys_core/protocol.py          Protocol: packets as bytes
--   msys_core/presentation_i18n.py Presentation: the cache of catalogs, the chain of locales
--   msys_core/msysd.py             Supervisor: its decisions, and the state that they change
--
-- A function of the source is a function of the same name here, without its leading underscore; a
-- method takes the state of its object as a record and returns an outcome, and the state where it
-- changes. An exception is the `err` of a result, with what it is about in place of its message.
-- Strings are lists of code points, Python's int is an integer with two native parts, a dict is an
-- association list in insertion order, and a set that is only asked for its members is a list.
-- JSON values, and arguments annotated as any object, are the data type of Value. Common holds
-- what these share: lists, dictionaries, texts, results, and sorting as `sorted` does it.
--
-- The parts of msysd.py, methods of one class there, have a module each, with the part of the state
-- that they change: Graph (_validate_dependency_graph), Providers and Calls (_provider_for_role,
-- _provider_for_interface and the _dispatch methods), Idle (the idle timer and the calls in
-- flight), Restarts (failures and quarantine), Foreground (the stack of applications, and memory
-- reclaim), Access and Events (what components may call, subscribe to and publish), Forward
-- (_forward_call), Transactions (_catalog_transaction_request), Memory (MemoryReclaimPolicy), Eager,
-- Visual and Routing (which providers start with the session, in which order visual clients start
-- again, where dispatch_call sends a call), over the shared Policies, Instances, Runtime, Responses
-- and Errors. An asynchronous method is a function where nothing of its state changes while it
-- waits. Where something does, each part between two waits is a function and the rest a step
-- relation, as for the idle timer; or what it waits for is an argument, as for the dispatch. A time
-- is a number of milliseconds, a task or a generation a number.
--
-- Parameters of the model: Python's `str`, `int` and `dict` on JSON values, and `json` with the
-- UTF-8 codec, where the source calls them, and which limits the platform's `resource` module has;
-- and for Calls the rest of the supervisor, as the record Runtime: starting and stopping a component
-- and forwarding a call to it, which may change anything and returns a response. All loops but
-- three run over a finite list or a nested value, and are structural recursion. The loop over a
-- locale and its parents has fuel, as many turns as the locale has characters, which is enough as
-- every parent is shorter. The search for dependency cycles has as much depth as there are
-- components, and one more: a component is entered once on a path. The loop of the dispatch takes
-- its fuel as an argument, and needs more than there are components, as no turn tries one of the
-- turns before.
--
-- Manifest and Isolation give the components that Roles and Services fold into their catalogs, and
-- ProfileContract accepts the profile from which Roles builds its registry: Roles/Profile joins
-- the two. Supervisor/Providers takes leases of the registry of Roles and asks the catalog of
-- Services, and Supervisor/Access and Events ask Acl.
--
-- Not modelled: of the supervisor the starting, stopping and watching of processes, the sockets,
-- the reload of the catalog, display outages and migrations, and the methods of msys.core; the
-- installed packages, the system calls that apply isolation, the normalisation of locales, reading
-- files, and the native runtime under native/, which is another implementation. Logging is left
-- out.
pub mod Acl
pub mod Common
pub mod Isolation
pub mod Manifest
pub mod Presentation
pub mod ProfileContract
pub mod Protocol
pub mod Roles
pub mod Services
pub mod Supervisor
pub mod Value
