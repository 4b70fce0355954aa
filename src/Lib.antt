-- ===== src/Lib.antt =====
-- The server-authoritative core of Fallout Terminal: the hacking game (internal/hack), the
-- navigation that players share (internal/nav), the live terminal that holds both (internal/live),
-- and the coordinator of a broadcast (internal/control), which decides who may use a terminal, over
-- the models of internal/domain.
--
-- How the parts interact. A checkpoint (`TerminalRuntime`) holds the authored tree, the navigation
-- state, the puzzle and the controller's selection. internal/live/service.go runs one command after
-- the other on it: navigation goes to internal/nav/nav.go, guesses and patterns to
-- internal/hack/hack.go, and afterwards the selection is revalidated. A new checkpoint gets a board
-- from `GenerateBoard`, which takes its words from internal/hack/wordbank.go. The coordinator
-- (internal/control/service.go) holds the sessions of the browsers, the roster, and the broadcast
-- with its claims and its checkpoints. Each of its operations is one transaction of `commit`: it
-- works on a copy, which becomes the runtime if the transaction is accepted, and what it publishes
-- goes out at the new revision, with one update for each session. The commands of the player in
-- control go to the live terminal, and so do the creation, update and suspension of checkpoints.
--
-- Files. Common has the names that all files share: lists, Go strings as lists of bytes, Go maps as
-- association lists that hold a key once, and what the program calls of `strings` and `strconv`.
-- Domain.Hack, Domain.Tree and Domain.Runtime are the types of internal/domain/model.go, and
-- Domain.Coordination and Domain.Snapshots are those of the coordinator and of what it publishes.
-- Domain.Validate is `validateTree` and Domain.Config `ValidatePlayerConfig` of
-- internal/domain/validate.go. The modules of Hack follow internal/hack/hack.go: Random (`Random`,
-- `safeIntn`, the search loops), Builder and Spans (`columnBuilder` with `place`, `placePattern`,
-- `placeInterruptedSpan`, `placeDelimiterDecoy`), Finish (`finish`, `generateAddresses`), Scan
-- (`discoverPatternSpans`), PatternId (`patternID`), Camouflage (`classifyFinalBoard`,
-- `publishable`), Generate (`generateBoardAttempt`), Board (`GenerateBoard`), Play (`ApplyGuess`,
-- `ForceSuccess`) and Effects (`ApplyPattern`, `PublicState`); WordBank and Vocabulary follow
-- internal/hack/wordbank.go. Nav follows internal/nav/nav.go. In Live, which follows
-- internal/live/service.go, Runtime has the operations on checkpoints, Command the commands to them
-- (`Apply`), Events both in any order, Presentation the selection, Effective the content after
-- completed commands, and Legacy the terminal that a service holds itself. Control follows
-- internal/control/service.go: Claims (`characterOwner`, `sessionAssigned`), Roster, Snapshots
-- (`masterSnapshot`, `playerSnapshot`), Live (`projectActiveTerminal`), Commit (`commit`,
-- `detachEffect`, `compoundUpdateLocked`), Requests (`storeRequestResult`, `fingerprintFields`),
-- Answers (what an operation of the Overseer answers), Characters (the roster and its
-- configuration), Assignment (`AssignCharacter` and the other changes of claims,
-- `RenameLogicalSession`), Selection (`SelectCharacter`), Connections
-- (`AttachSubscriptionAndRegister`, `DetachConnection`), Broadcast (`New`, `StartBroadcast`,
-- `EndBroadcast`, `Shutdown`), Route (`establishInitialTerminalRoute`, `validTerminalReturnPoint`),
-- Terminals (`RequestTerminalActivation`, `RequestTerminalClear`), Switch (`ResolveTerminalSwitch`,
-- the updates of the active terminal, `ResetFailedHack`, `ForceHackSuccess`), Commands
-- (`validRuntimeCommand`, `selectedAuthoredCommand`), Prepare (`preparePlayerAction`), Outcomes
-- (`beginTerminalTransition`, `commitPlayerActionResult`), Actions (`DispatchPlayerAction`),
-- Navigation (`ResolveTerminalNavigation`) and Groups (`ReplaceTerminalGroups`). Operations has the
-- calls of all of them as values and the coordinators that they lead to, Links the claims as they
-- stay in order, and Ledger what the claims mean without the maps that hold them. A child module
-- has proofs about its parent; Tests has concrete inputs.
--
-- State. An operation takes the state and returns the new one; an operation that draws also takes
-- the random source and returns the source of later draws. A random source is given by its answers,
-- one for each call and limit, so a theorem about any source is about any sequence of answers,
-- negative ones and ones beyond the limit included. `Attempt` is the step of board generation,
-- which fails where the source returns nil. Pointers to copies are values, since the source
-- detaches what it hands out; the puzzle that a checkpoint shares with the live slot is handed back
-- by each operation. A `Coordinator` is the runtime, the service that draws puzzles, and the number
-- of calls made of IDs and stores; a `Transition` is the end of a transaction with its working
-- copy, and what a refused one has drawn stays drawn. A map of pointers is a map of values, and a
-- write through a pointer to the active checkpoint is a write to its place in the map.
--
-- Bounds. Revisions are taken modulo 2^64. `unique_id` and `free_name` get one or two rounds more
-- than there are keys, which is enough if the IDs of so many calls in a row differ. `board_tries`
-- and `try_random` count the 300 rounds of the loops that they model, so no round is missing;
-- `first_from` counts the places of a column. Recursion on texts, trees and paths is structural.
-- Numbers are ℕ where the source's are never negative: attempts are lowered only from above zero,
-- and indices come from `len` and from checked parses. Levels, requested starts and random answers
-- are ℤ.
--
-- Parameters. crypto/sha256, the reads of crypto/rand, json.Valid, the word source, the IDs of
-- generations and of the coordinator, the stores of rosters and of terminal groups, and the catalog
-- of the session are arguments; stores, IDs and catalog answer by the number of the call. One
-- property assumes that a few IDs of the coordinator in a row differ, as random ones do; no other
-- assumes anything of them.
--
-- Not modelled: of the coordinator, `ResolveCommandExecution` and the reset of command states,
-- which need the session document, the audit events, and the seams that are nil only in tests; the
-- session editor (internal/session), the rest of the validation and the JSON of internal/domain,
-- transport (internal/player), public access (internal/tunnel), and the desktop host. Locks are
-- left out: each operation holds the service's mutex from start to end, so operations are single
-- steps; the two that look a handle up before they take the mutex again are taken as one step. In
-- Control, errors are told apart without their texts. Nil receivers and nil states return at once
-- in the source and have no counterpart. Where two completed commands change one block of an entry,
-- the source's map order decides; the model takes the order of its list. `strings.ToUpper` is exact
-- for words that can become candidates.
pub mod Common
pub mod Domain
pub mod Hack
pub mod Nav
pub mod Live
pub mod Control
pub mod Tests
