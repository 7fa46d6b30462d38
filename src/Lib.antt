-- ===== src/Lib.antt =====
-- The clients of mobilecoding, which drive a coding assistant from a browser or a phone: the chat
-- state that they show, the requests that they send, the diffs, and the controls of a session.
--
-- Parts and how they interact. The server sends events over a WebSocket. The web client's socket
-- (web/src/core/ws/ws-client.ts) pairs requests with responses and passes events on; the chat
-- provider dispatches each event to a reducer (web/src/core/state/ChatContext.tsx), which keeps the
-- messages on display, the permission prompt, the turn and the queue of inputs, and mirrors part of
-- them in localStorage; the session's controls (web/src/features/terminal/sessionControls.ts)
-- compute the arguments of the assistant's command and check that an input can be sent.
--
-- Files.
--   Base          library names, tests on native numbers, lists, texts
--   Json          parsed JSON values, parseInt
--   Event         web/src/core/ws/types.ts: events and messages; the tag of an interface is a
--                 constructor
--   Chat.State    ChatState and the actions, Chat.Storage the load and save functions; an access of
--                 localStorage may fail, as Env says for each call
--   Chat.Merge    how EVENT_RECEIVED merges an event into the messages; Chat.Detect the permission
--                 request inside a tool result; Chat.Agent agentStateFromEvent, extractContextTokens
--   Chat.Receive  the whole EVENT_RECEIVED case, in the order of its statements
--   Chat.Reducer  the other cases, reducer, initialState, and run: the reducer over a history of
--                 actions
--   Chat.Io       the effects and results of the asynchronous functions
--   Chat.Provider the provider's functions; Chat.Provider.Input, Account, Stop, Answer and CatchUp:
--                 sendInput, sendStop, the permission answers and the catch-up, with their
--                 properties
--   Chat.Opening  how a page connects by its address and its stored token, the interceptor of
--                 tokens (web/src/App.tsx) included; Chat.Opening.Links its property
--   Chat.Flush    the effect that sends the queued inputs on reconnection, with its property
--   Chat.Frame    what an event leaves alone; Chat.Bounds, Stream, Reply, Dedup, Permission, Turn,
--                 Lists and Reload state the properties; Chat.Sync has the lemmas of Reload
--   Rpc.Calls     the bookkeeping of requests: a promise is a ticket, a timer the number of its call
--   Rpc.Ledger    the invariant on it, Rpc.Conservation and Rpc.Rejection that each operation keeps
--                 it, Rpc.Answer a request with its response and the queue that goes out,
--                 Rpc.Reconnect the delays
--   Rpc.Web       WSClient of the web client with the browser's sockets and timers; Rpc.Web.Steps
--                 its steps, Rpc.Web.Ledger, Rpc.Web.Ended and Rpc.Web.Close lemmas and the
--                 properties
--   Rpc.Terminal  RealMobilecodingClient of mobile/src/screens/TerminalScreen.tsx on the same
--                 bookkeeping; Rpc.Terminal.Disconnect its property
--   Rpc.Mobile    WSClient of mobile/src/services/network/WSClient.ts; Rpc.Mobile.Spec the cases of
--                 a step on its requests, Rpc.Mobile.Sockets its sockets, Rpc.Mobile.Refines its
--                 property
--   Rpc.Mock      MockWSClient of mobile/src/screens/TerminalScreen.tsx
--   Rpc.Relay     RelayClient of web/src/core/ws/relay-client.ts; Rpc.Relay.Tidy, Live and Close the
--                 properties
--   Diff          parseUnifiedDiff of web/src/features/terminal/cards/DiffView.tsx; Diff.Render and
--                 Diff.Count the properties
--   Input         web/src/features/terminal/InputBar.tsx: history, draft and sending; Input.History,
--                 Input.Browse, Input.Keys and Input.Drafts the keys, the drafts and the properties
--   Phone.Terminal the screen of mobile/src/screens/TerminalScreen.tsx; Phone.Terminal.Handlers and
--                 Answer its steps, Commands and Arguments: the slash commands and the program's
--                 arguments, with the properties
--   Phone.Cards   mobile/src/components/terminal/AssistantGroupCard.tsx and toolTone.ts,
--                 Phone.Cards.Copied its property
--   Phone.Link    mobile/src/services/auth/DeepLinkService.ts, Phone.Link.Parse its property;
--                 Phone.Link.Adapt mobile/src/services/network/ConnectionAdapter.ts
--   Phone.Setup   the profile in the keychain (mobile/src/services/auth/AuthService.ts), the first
--                 screen (mobile/src/screens/OnboardingScreen.tsx) and the scanner
--                 (QRScannerScreen.tsx), with their properties
--   Phone.Store   mobile/src/stores/useMessageStore.ts, Phone.Shown its property; Phone.Groups
--                 mobile/src/components/terminal/groupMessages.ts with its properties
--   Git           the changed files: Git.Sidebar web/src/features/files/GitFilesSidebar.tsx,
--                 Git.Dialog mobile/src/components/terminal/GitDiffModal.tsx, with their properties
--   Banner        web/src/features/terminal/PermissionBanner.tsx, Banner.Answers its properties
--   Cards         Cards.Result and Cards.Use: ToolResultCard.tsx and ToolUseCard.tsx of
--                 web/src/features/terminal/cards, Cards.Result.Found the properties
--   Messages      web/src/features/terminal/MessageList.tsx, Messages.Follows its property
--   Status        web/src/features/terminal/AgentStatusBar.tsx; Status.Agrees the property on it
--                 and the input bar
--   Controls      sessionControls.ts; Controls.Arguments and Controls.Ready lemmas and properties;
--                 Controls.Bar web/src/features/terminal/SessionBar.tsx, Controls.Started its
--                 property
--
-- Choices. An effect on localStorage is a component of the result. The clock and the storage's
-- failures are the argument Env of an action. Ids of requests are a parameter; where a theorem needs
-- it, the ids of different calls are assumed to differ, as crypto.randomUUID documents. JSON.parse
-- is taken to undo JSON.stringify on what is stored. A JSON number is an integer. Where the source
-- counts UTF-16 units a text is counted in code points. An asynchronous function is cut at its
-- awaits: what was sent is in flight until the step that answers it. Loops are structural recursion,
-- so no fuel is needed. White space and letters are compared by code point; tool names are matched
-- without regard to ASCII case.
--
-- Not modelled: the views, the styles, the pages for memory and skills, the phone's storage and the
-- server (cmd, internal), which the clients know by the frames they receive.
mod Base
pub mod Json
pub mod Event
pub mod Chat
pub mod Rpc
pub mod Controls
pub mod Messages
pub mod Cards
pub mod Banner
pub mod Git
pub mod Status
pub mod Diff
pub mod Phone
pub mod Input
