-- ===== src/Lib.antt =====
-- The control plane's core of the platform: its store of workspaces, teams, grants and people, who
-- may do what, the instance sizes, the plan limits and the names of projects.
--
-- Parts and files:
--   Store     the records of pkg/store/store.go (Store/Types) and the struct Memory of
--             pkg/store/memory.go (Store/State). One function for each method, named after it:
--             Store/Workspaces (Migrate, CreateWorkspace, ...), Store/Domains, Store/Identities,
--             Store/Teams, Store/Grants, Store/Sessions (with the one-time codes), Store/Tokens.
--             Store/Calls has a call of any method that changes the state as a step, and runs of
--             calls. Store/Valid states the invariant; Store/Valid/* show what keeps it.
--             Store/Dump has Export and importDump; Store/Dump/* are about restoring a dump.
--   Authz     pkg/authz/authz.go: the role table (Authz/Table), Roles and Can (Authz/Roles),
--             Snapshot, RolesFor and Load (Authz/Snapshot), the cache (Authz/Resolver). Load reads
--             the store of the first part. Authz/Access describes who may do what without the
--             loops and maps of RolesFor.
--   Sizes     pkg/sizes/sizes.go: the catalog and its checks (Sizes/Catalog), the resources of a
--             size and of a process (Sizes/Resources).
--   Plan      pkg/api/plan.go: what a workspace uses (Plan/Usage), which resolves sizes through the
--             catalog, and the checks against the limits of the workspace (Plan/Check).
--   Project   pkg/project/project.go: which slugs are acceptable, and the namespace of a project
--             (Project/Names).
--   Postgres  pkg/store/postgres.go: its methods on teams and grants over the rows of the tables of
--             pkg/store/migrations (Postgres/Tables, Postgres/Teams, Postgres/Grants). A statement of
--             SQL is a function of the tables, a constraint of the schema is a test or a clause of
--             IsSound, which says more than the schema does. Postgres/Refine reads the tables as a state of the in-memory store, and
--             Postgres/Refine/* compare each method, and runs of calls, with the first part.
--   Tenancy   pkg/tenancy/tenancy.go: the tests on host names (Tenancy/Hosts), the resolver ByAddress
--             and its cache (Tenancy/Resolver), Single and Addresses (Tenancy/Slugs). The store is an
--             interface, Directory, with laws that the in-memory store fulfils (Tenancy/Claims).
--             Tenancy/Caches and Tenancy/SlugCaches are about calls that interleave.
--   Releases  internal/controller/status.go and registry.go: the release history of an app
--             (Releases/History), the descriptions of changes (Releases/Sizes), the deletion of the
--             images that leave it (Releases/Prune).
--   RegistryGc  internal/controller/registrygc.go: one collection of the registry's garbage
--             (RegistryGc/Collector) and who may start one (RegistryGc/Trigger).
--   Edge      pkg/edge/edge.go: signed tokens and cookies (Edge/Tokens), one-time codes over the
--             store of the first part (Edge/Codes).
--   ConfigVars  pkg/configvars/configvars.go: the Secret with the config vars of an app
--             (ConfigVars/Secrets) and the reading of .env files (ConfigVars/Dotenv).
--   Common    tests, list, map and text functions that the parts share.
--
-- How the code is read. A method of the store holds its lock from start to end, so it is one
-- function from a state to a result and a state. Export is the exception: it takes the lock once
-- for each list that it reads, and here it reads all of them in one state, as it does when no other
-- call comes between. A method reads the clock once; times are numbers
-- of nanoseconds. A TTL is a natural number; of a negative one, which ByAddress and Addresses replace
-- by the default as they do 0, and the resolver of pkg/authz keeps, nothing is said. Identifiers of uuid.NewString are arguments, and where a theorem needs a new one
-- it says so. A Go map is an association list, its iteration order the list's. sort.Slice is an
-- insertion sort: entries that compare equal may stand in another order than in Go. strings.ToLower
-- maps A to Z only, and EqualFold compares lower cases; white space is that of unicode.IsSpace.
-- resource.Quantity is a parameter (Sizes/Quantities), and MustParse's panic is a result of its
-- own. The database orders texts by their characters. JSON, base64, Ed25519, net.ParseIP,
-- net.SplitHostPort, the registry's client and what Kubernetes answers are parameters. Loops are
-- structural, but for the two that wait in a collection: those run on fuel, one unit a round, and
-- answer `unfinished` without it. 721 units are enough, since a run is cancelled after an hour and a
-- round takes five seconds.
--
-- Not modelled: the other tables of the PostgreSQL store; HTTP handlers, the reconcilers, the command
-- line and the installer, which are I/O around these parts; YAML and JSON forms; the texts of error
-- messages; Sorted of the sizes; the derivation of a slug from a display name; the schedule
-- of collections and the record of the last one.
pub mod Common
pub mod Tenancy
pub mod Store
pub mod Authz
pub mod Sizes
pub mod Plan
pub mod Project
pub mod Postgres
pub mod Releases
pub mod RegistryGc
pub mod Edge
pub mod ConfigVars
