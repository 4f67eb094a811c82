-- ===== src/Lib.antt =====
-- Verification of snailmail, which builds signed package repositories from locked desired state and
-- publishes them. A workspace has one lock for each repository (what it should serve), a ledger of
-- what was published, and a deployment record of what a host serves now.
--
-- Parts and files:
-- - Version/*: `CompareVersions` of formats/{deb,rpm,apk,pypi,raw,helm}/version.go. Pruning takes one
--   of them as its comparator. An `int` result is an `Ordering`, an error is `err`.
-- - Formats: the registry of formats/format.go, and the coordinates that a lock asks of a format.
-- - Hexdigest: internal/hexdigest/hexdigest.go, which strings are digests.
-- - State/Model, State/Lock, State/Canonical: the data of internal/state/model.go, `ValidateLock` and
--   `canonicalizeLock` of internal/state/store.go. The operations on a lock are State/Placements
--   (`PromotePlacement`, `YankPlacements`), State/Blobs (`AddBlob`, `SetBlobOrigin`) and State/Prune
--   (`PrunePlacements` of internal/state/prune.go). A `*RepositoryLock` that an operation changes is
--   an argument and a part of the result; a Go map used as a set is a list of its keys.
-- - State/Ledger, State/History: internal/state/ledger.go, the checks of its records, the append of an
--   apply and the check of a lock against it.
-- - State/Shards: `readShardedLock` and `merkleRoot` of internal/state/lockshard.go, `maxLockBytes` of
--   internal/state/locksize.go. The files are a function of their path, and the workers that read
--   them are a loop in the order of the index, in which the code takes their results.
-- - State/Hosts, State/Names, State/Urls: `validateRepositoryHost` of internal/state/store.go with the
--   names, branches and endpoints it accepts, and the matrix of host/support.go.
-- - State/Policy: `ValidateGateConfiguration` and `validateRepositorySigning` of internal/state/store.go.
-- - Engine/Rotation, Engine/Transition: the signing state of engine/signing.go and the rotation step
--   of engine/rotation.go, with the durations of Engine/Duration. Engine/Rollout: `rolloutReleases` of engine/rollout.go.
-- - Engine/Apply: `ApplyWorkspace` of engine/workspace.go on the repositories that were prepared. An
--   action maps the state of the apply to a result and a state, which is kept after an error. The
--   environment is a record of functions on a state of its own: the clock, the gates, the hosts, the
--   client probes, git and the ledger files. The trace of the calls is the model's own. Engine/Host has
--   the data of host/host.go.
-- - Gate: gate/gate.go, signed approvals and merged pull requests, and the data of forge/forge.go. An
--   instant is a number of seconds.
-- - Base: shared helpers, orders, results, strings as byte lists, a regular expression matcher.
-- - Tests: the definitions run on concrete values.
--
-- Bounds and fuel: strings are lists of byte values, an `int64` that is parsed is limited to its
-- range, sizes are integers, a `time.Duration` is a residue modulo 2 ^ 64. The loops of the deb and rpm comparators run on fuel equal to the sum of
-- the lengths, since each round drops a byte of one string; no other loop needs fuel.
--
-- Not modelled: input and output, git, the hosts, forges, signers and blob stores behind their
-- interfaces, package readers and tree builders. Package semver, `time.Parse`, Ed25519, SHA-256,
-- base64, JSON, TOML, `url.Parse`, `path.Clean` and the check of an artifact's recorded origin are
-- parameters. Of an apply, opening and checking the plan, building the trees, and the progress events
-- are left out.
pub mod Base
pub mod Version
pub mod State
pub mod Formats
pub mod Hexdigest
pub mod Gate
pub mod Engine
pub mod Tests
