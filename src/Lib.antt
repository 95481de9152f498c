-- ===== src/Lib.antt =====
-- A verification library for the host manager's request-time core: what the Go code under internal/ promises, over a model that follows it function by function.
--
-- Conventions. A Go string is the list of its bytes (Base/Strings). A Go map is an association list; iteration goes through the list, so a statement about every list covers each order that Go may choose (Base/Maps). Times and durations are numbers of nanoseconds; time.Now() is an argument of the operation that reads it, and a duration is taken not to be negative. An operation that runs under one lock is one step, so an interleaving of callers is a sequence of operations.
--
-- internal/cache (Cache, cache.go and memory.go). Cache.antt has the options and generations. Cache/Lru is the container/list that memory.go keeps, with element pointers as numbers. Cache/Memory has the record InMemoryCache (State) and its methods: Delete, Get and GetAndDelete (Lookup), DecrementIfPositive (Counter, with strconv's integers in Decimal), Set and Update (Write), the reaper, the change of generation and the scan (Sweep). Cache/Manager is InMemoryCacheManager: GetCache, Cycle and ScanGenerations, and the loop of the reaper. Cache/Trace puts the operations into sequences. The proofs: Cache/Memory/Demand and Covered (each entry has its own element in the recency list), Capacity, View, Winner, Budget, Reads, and Generations. Twenty digits suffice for the text of an int64. The Valkey backend (valkey.go) is scripts that a server runs and is not modelled; nor are the mutexes and channels themselves.
--
-- internal/auth (Auth/Refresh, refreshgrace.go and the refresh tokens of exchange.go). Refresh.antt has the records and the two caches; Grace the grace records and the poll of a caller that lost a rotation, whose reads are given one by one, since other callers act in between; Redeem has RedeemRefreshToken and RevokeRefreshToken, with the failures of the cache calls as an argument and the rest of the exchanger (revocation, client registry, consent, identity provider, mint) as functions of it. The poll's ten attempts are its fuel. The event that a refresh sends and the log lines are not modelled. The proofs: Poll, Lineage, Outcomes, Refusals, Revocation.
--
-- internal/auth (Auth/ClientRegistry and Auth/SubjectKind, client_registry.go and subject_kind.go). ClientRegistry.antt has the registry of client ids and its merge with a configuration; loadClientRegistry is one step on what is stored, which fails where the cache does. A nil cache manager is not modelled. SubjectKind.antt has the kinds and the veto. Which kinds beyond client and user a release knows is a parameter. The proofs: Merge, Builds (any sequence of builds), Revival.
--
-- internal/auth/exchange.go (Auth/CodeGrant, the authorization codes). CodeGrant.antt has CreateAuthorizationCode and RedeemAuthorizationCode over the code cache and the refresh caches, with the sealing of a code, SHA-256, the client lookup and the mint as parameters; a nil exchanger is not modelled. The proofs: Bound, Once, Cycle. Auth/LookupClient has LookupClient, with the store of registered clients in Dcr/Store (dcr/store.go). The proofs: Policy, Stored.
--
-- internal/auth/exchange.go, binding_key.go and internal/sign/sign.go (Auth/Mint, the claims of a token). Mint.antt has the signing contexts of mintTokensFromCode and mintTokensFromSubject, with mergeBackendClaims, mergeIDPList, idpClaimSnapshot and applyScopeFilter; Binding has resolveBindingKey; Token has the signer's Project and confineByScope. The mapper of the claim mappings, entitlements.Compact, strings.EqualFold and the signature are parameters; scopes come as their words. The proofs: Reserved, Confined, Scoped, Keyed.
--
-- internal/auth/roles.go (Auth/Roles). Roles.antt has NewRoleProvider's loop over the bindings and resolveRoles, with regexp.Compile as a parameter; Grants has malformedGrantPart, ruleRefusals and buildMappingTable. The lookups of credentials (LDAP, secrets) are not modelled. The proofs: Matching, Resolution, Meaning, Complete.
--
-- internal/auth/apitoken (Auth/ApiToken, apitoken.go). ApiToken.antt has the keys and APITokenManagerLoader, whose secrets are given from the oldest to the newest; Revocation has the revocations, in a store whose entries expire by the cache's clock, which need not be a replica's; Mint has the prefix, MintStatelessKey and ValidateToken. go-paseto (signing, parsing and its rules), the JSON of a footer, RFC 3339 times and SHA-256 are parameters. Revoking has RevokeByMetadata and RevokeToken. The order of the concurrent lookups is not modelled. Adoption has AdoptStrandedRevocations, with the failures of its reads and updates for each key; a failed scan adopts nothing. The proofs: Keys, Cutoff, RoundTrip, Refused, Adoption/Stranding, Adoption/Update, Adoption/Covered.
--
-- internal/auth/dcr (Dcr, grants.go and redirects.go). url.Parse is a parameter, of which the policy reads the scheme, the host and whether there is userinfo. The proofs: Filter, Redirects.
--
-- internal/rewrite (Rewrite). The regular expression of a wildcard is a scan from left to right that restarts where a match fails. The proofs: Segments, Known.
--
-- internal/host/register_limiter.go (Host/RegisterLimiter). The token buckets of golang.org/x/time/rate are a parameter. Host/ClientAddress has clientIP and splitAndTrim, with net.SplitHostPort as a parameter. The proofs: Idle, Parts.
--
-- internal/host/proxy.go (Host/UpstreamPath). The escaped path that the proxy sends upstream, with url.PathUnescape as a parameter; the rest of the proxy is input and output. The proofs: Kept.
--
-- internal/host/resource_names.go (Host/ResourceNames). ResourceNames.antt has pageOfNames, compareNames and the cursor, Native has hostNativeNames, Handler the handler with listingRoute and dispatchListing, Buffer bufferedResponse. The JSON and base64 of a cursor, strings.ToLower, the gate, the attenuation test and the host's mux are parameters. The sort is an insertion sort: names differ, so every sort gives the same list. The proofs: Compare, Sorted, Paging, Walk, Collected, Listed, Answers, Routes. Paging has a client that follows the cursors; one page more than there are names is enough fuel for it.
--
-- internal/web/middleware/streamdeadline.go (Web/StreamDeadline). A handler is the list of its calls, each with its time and headers; the deadline is the one that it leaves. Hijack and Unwrap delegate and are not modelled. The proofs: Windows.
--
-- Not modelled: the Valkey backend, whose scripts a server runs; the password, OIDC, client-credentials and token-exchange grants of exchange.go; the OAuth2 and host HTTP handlers other than the listing of resource names; the authentication middleware; the Kubernetes controllers, the sniffer and the build and deploy jobs, which work on objects of other systems; cryptography, and the start of the process.
--
-- The definitions are run on small inputs under Examples.
pub mod Base
pub mod Cache
pub mod Auth
pub mod Dcr
pub mod Rewrite
pub mod Web
pub mod Host
pub mod Examples
