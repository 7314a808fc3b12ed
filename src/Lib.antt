-- ===== src/Lib.antt =====
-- Nisix is a gateway between chat channels and an agent. A channel adapter (Telegram) turns updates into
-- inbound messages; the gateway checks a token, the router picks the agent and the session of a message, the
-- session manager keeps the transcript and the context for the model, the runtime gives the agent's
-- events, and the channel hub hands each reply to a sender. The modules follow these parts.
--
-- Domain       internal/domain/types.go: messages, routes and events.
-- Config       internal/config/config.go. Config.Telegram is applyTelegramDefaults and
--              validateTelegramAccounts, Config.Defaults is Load; os.ReadFile, json.Unmarshal and
--              OPENAI_API_KEY are arguments. Config.Loaded and Config.Telegram.Accounts hold the proofs.
-- Router       internal/router/router.go: Resolve, newRoute, matchChannel, matchAccount.
-- Hub          internal/channels/hub.go: MultiHub. Hub.History is the history of its registrations.
-- Security     internal/security/auth.go.
-- ToolPolicy   internal/toolpolicy/policy.go.
-- Telegram     internal/channels/telegram.go: the adapter's state and options. Telegram.Dedupe is
--              isDuplicateUpdate, Telegram.Limits allowByRateLimit and allowedByAllowlist,
--              Telegram.Mentions the commands and mentions, Telegram.Chunks chunkTelegramText,
--              Telegram.Polling the body of the loop of RunPolling over one answer's updates.
-- Sessions     internal/sessions/manager.go and store.go. Sessions.Budget, Sessions.Summary and
--              Sessions.Context are the budget, the rolling summary and applyContextMessage;
--              Sessions.Transcript is a transcript's records and the rebuild of a context;
--              Sessions.History is HistoryPageFiltered; Sessions.Store is the interface of the stores, with
--              one module for each; Sessions.Manager is the manager over any store.
-- Skills       internal/skills/selector.go: Skills.Explicit and Skills.Matching are the two choices of
--              skills for a message. Skills.Parser is parser.go and Skills.Loading is loader.go: LoadAll,
--              SelectForMessage and the lookups, over a listing of the directory.
-- Profile      internal/profile. Profile.Validator, Profile.Commands, Profile.Diff, Profile.Detect and
--              Profile.Proposals are the files of these names; Profile.Patch and Profile.Files are store.go,
--              with the regular expressions and the expansion of a replacement in Profile.Patch.Replace and
--              Profile.Patch.Expand; Profile.Service is service.go.
-- Tools        Tools.Registry is internal/tools/registry.go, Tools.Shell the timeout and the output buffers of
--              internal/tools/shell_tool.go.
-- Bootstrap    internal/bootstrap/service.go (LoadContext), internal/identity/service.go and
--              internal/memory/service.go: what is read from the workspace.
-- Model        internal/model/client.go: the two prompts.
-- Runtime      internal/agentruntime/runtime.go. Runtime.Services is the runtime with its services,
--              Runtime.Lines parseToolCallFromGeneratedText, Runtime.Listings the lists of skills, tools and
--              MCP servers, Runtime.Commands handleCommand, Runtime.Events the events
--              of !slow, !tool and of the model's answer, Runtime.Run the run itself.
-- Mcp          internal/mcp/loader.go: Mcp.Names is sanitizeName and uniqueToolName, Mcp the registration of the
--              tools of servers whose answers are arguments; Mcp.Transport is resolveTransport of client.go.
-- Workspace    internal/workspace/files.go: EnsureLayout, GetStatus and CompleteOnboarding.
-- Gateway      internal/gateway/server.go: handleInbound, which puts the parts above together over any agent;
--              Gateway.Ws is internal/gateway/ws.go and internal/protocol/frames.go: the state of a
--              connection and its steps.
-- Common       what they share: byte texts with the functions of package strings (on ASCII), the runes of
--              UTF-8 (Common.Runes), dictionaries for maps, sets, decimal numbers, and lists over native numbers.
-- Tests        runs on concrete inputs.
--
-- Go's state is passed explicitly: an operation takes the old state and gives the new one with its answer.
-- Where a mutex is held for a whole operation, the operation is one step. ApplyProposal holds none
-- across its look, Update and deletion: there the other calls are an argument (apply_among), and each of
-- these parts is a step of its own. The runtime takes its calls of the services one after the other.
-- An error is a value of a result type. Time is a number of nanoseconds that the environment gives. What
-- the system calls answer is an argument (records named Io or OpenIo), and encoding/json is a pair of functions (Codec, Decoder); where a theorem needs that a record
-- reads back, it says so (Writes, RoundTrips). Of the file system a model keeps the bytes of the files that
-- the code names.
--
-- Sums of int that may pass 2^63 are written with their wrap-around (Sessions.History); other numbers are
-- limits and counters far below it. The loop of chunkTelegramText runs on fuel, the number of runes, which
-- is enough because every chunk takes at least one; Sessions.History.Pages.follow runs on one more than the
-- number of records, and each page but the last has at least one. The loop of uniqueToolName gets one
-- round more than there are names, and every round meets another name. Letters outside ASCII are not folded.
--
-- The loops over texts (the scan of a regular expression, the expansion of a replacement, the fronts and
-- lines of a file) are recursions on the text. The agent's run has one answer of the model, and its loop of
-- twenty blocks is a recursion on the number of blocks that are left. A run has no events where it panics:
-- !tool calls a registry that may be nil.
--
-- Not modelled: the ticks and events of the web socket and its methods that only read, the methods of the
-- gateway that hand a call on to a service, and the directory check of the shell tool; and, as input and
-- output, the HTTP and JSON-RPC clients of Telegram, of the models and of MCP, the notifications of MCP
-- servers, the command of the shell tool, the time tool, the soul service, the logger, and the wiring of
-- cmd/nisixd.
pub mod Common
pub mod Domain
pub mod Router
pub mod Hub
pub mod ToolPolicy
pub mod Security
pub mod Sessions
pub mod Telegram
pub mod Config
pub mod Gateway
pub mod Skills
pub mod Profile
pub mod Tools
pub mod Bootstrap
pub mod Model
pub mod Runtime
pub mod Mcp
pub mod Workspace
pub mod Tests
