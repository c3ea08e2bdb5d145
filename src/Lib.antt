-- ===== src/Lib.antt =====
-- A model of repo-settings, the service that keeps the settings of GitHub repositories as their YAML
-- files say, with the theorems that make its core correct.
--
-- A reconcile starts from layers of settings (organization, suborgs, repository), merges them, checks
-- the result against the organization's policy, and runs one lane for each resource. A lane reads the
-- live state, plans the differences, and applies them with a bounded pool of workers. Reads of GitHub
-- go through a cache of responses that every write invalidates.
--
--   Value.antt       the dynamic values (`any`, `map[string]any`) of the Go code, maps in key order
--   Config/Schema    internal/config/schema.go: the records of the settings; Sections names their fields
--   Config/Resolver  internal/config/resolver.go: `Merge` and `Resolve`
--   Config/Selective internal/config/selective.go: `AffectedKeys` and `Filter`
--   Config/Suborg    internal/config/suborg.go and glob.go: `Matches` and `globRegex`
--   Config/Admin, Config/Policy
--                    internal/config/admin.go and policy.go: `ValidatePolicy`; Policy/Spec says what it is
--                    to comply, Policy/Compliance and Policy/Severity relate the two
--   Config/Resolution internal/config/resolution.go: `ResolveFor`, `Blocking`, `Desired`, `Filtering`
--   Config/Files, Config/Validate
--                    internal/config/file_envelopes.go and validate.go: the records of the settings files
--                    and the checks on them, by the kind of file; Validate/Accepted,
--                    Validate/Properties, Validate/Versions and Validate/Webhooks are about what is accepted
--   Config/Loader    internal/config/loader.go: `loadSettingsDir`, `LoadFromMap`, `mergeFile`; a file is a
--                    layer in Loader/Layers
--   Config/Org       internal/config/org.go: `LoadAdmin`, `loadSuborgs`
--   Config/AdminCache internal/config/admin_cache.go
--   Config/Normalize internal/config/normalize.go
--   Config/Disabled  internal/config/disabled.go
--   Diff             internal/diff/diff.go: `Fields` in Diff.antt, values in Diff/Compare, `NamedList` and
--                    `SingleResource` in Diff/Lists
--   Conc             internal/conc/conc.go: `Map` as a step relation
--   Applier          internal/applier/applier.go and helpers.go: `namedListRun`, `singleResourceRun`
--   Reconciler       internal/reconciler/reconciler.go
--   Ghclient/EtagCache internal/ghclient/cache.go
--   Ghclient/RateLimiter internal/ghclient/ratelimit.go: the queue, the pick of the next
--                    request, and in RateLimiter/Wait the wait where there is none
--   Server           internal/server: Commands (commands.go), Failures, Webhook, Comments and Intake
--                    (webhook.go), Auth (auth.go) and Api (api.go). A handler is the list of the calls
--                    that it makes, with its answer; Signature, Safety, Scope, Credentials, Parsed and
--                    Leaves are about them
--   Oidc             internal/oidc/github.go: `ParseGitHubIdentity`, and in Oidc/Subject the parts of a
--                    subject
--   Worker           internal/worker/worker.go: `ReconcileBatch`
--   Base             lists, maps, texts and integers that the components share
--   Tests            the theorems at concrete inputs
--
-- A Go pointer that may be nil is an `Option`, a nil slice differs from an empty one, and a map is a
-- list of pairs, or a set of keys. The order in which `range` visits a map is an argument where a
-- report depends on it. Go's `int` is an unbounded integer where the program neither adds nor multiplies
-- the numbers it reads from a file; the conversion of a float in the policy check, and the durations of the
-- rate limiter, keep their 64 bits.
--
-- `regexp.MustCompile` panics on a pattern that does not compile. The match of a glob is then `none`, and
-- the run of the caller ends there: what the model of the caller gives for such a pattern is no result of
-- the code, so the verdict of the policy is stated for patterns that compile.
--
-- `Fields` runs on fuel, one more than the nesting of the desired map, and every recursive call goes one
-- level down that map, so the fuel does not run out. The batches of Worker run on the number of the
-- repositories, each turn taking at least one. All else is structural recursion.
--
-- Arguments of the model, as code outside the repository or input and output: the regexp engine, the
-- number and quote verbs of fmt, how encoding/json writes a number and a text, the closures of the
-- lanes, the reads and mutations of GitHub, the strict YAML decoder, the JSON decoder, `url.Parse`, the
-- hash of a webhook's body, the verifier of workflow tokens, the layout of a report, and the functions of
-- package strings that rest on the tables of Unicode. Not modelled: HTTP, the transport and
-- the tokens of GitHub, the lanes of the single resources and the shapes of the API that they convert, the
-- check of the keys of an issuer, /api/validate, logs and metrics. In Conc a run is a sequence of steps of
-- the feeder and the workers; the channels between them and their closing are not modelled, and that every
-- run ends is not stated.
pub mod Base
pub mod Value
pub mod Config
pub mod Diff
pub mod Conc
pub mod Applier
pub mod Reconciler
pub mod Server
pub mod Oidc
pub mod Worker
pub mod Ghclient
pub mod Tests
