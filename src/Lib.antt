-- ===== src/Lib.antt =====
-- Verification library for the browser client of 0xbin, the TypeScript under web/src.
--
-- The client shows a live room: several browsers edit shared documents over one WebSocket, and an HTTP
-- snapshot brings a browser back when it has missed something. The parts, and how they interact:
--
-- Resync models web/src/live-resync.ts. LiveResyncController fetches the snapshot: `start` opens a session
-- and sends a request, `buffer_event` keeps the wire events that arrive meanwhile, `resolve` and `reject` are
-- the two callbacks of the request's promise, `fire_retry` and `fire_deadline` those of the timers. A method
-- is a function on the state, which holds the class's fields and what the platform keeps: pending timers,
-- fired abort signals, the requests and notices so far. The room's callbacks (reconcile, applyBuffered, ...)
-- are fields of `Options` and act on an abstract room state; a callback that calls the controller again
-- while it runs is not modelled. `Input`, `step` and `run` let calls, answers and timers come in any order.
--
-- Connection models web/src/live-connection.ts: LiveConnectionController, which owns the room's one socket. Its
-- state has the class's fields, and beside them the pending timers with the sockets of their callbacks, the
-- sockets neither closed nor told to close, and the calls made so far. Connection.Closing has the close of a
-- socket, the probe, the timers' callbacks, and `step` and `run` over all inputs in any order. The calls of
-- the owner's callbacks are logged; a callback that calls the controller again while it runs is not modelled.
-- Connection.Text has the regular expressions on close reasons, Connection.Delay the backoff, in exact
-- arithmetic where the source computes with floating-point numbers.
--
-- Api and LiveApi model web/src/api.ts and web/src/live-api.ts: requests, the errors made of responses, the
-- checks of responses, and the calls. The parameter `fetch` answers to a path and a request (with the address
-- that the path resolves to, the constant headers, credentials and abort signal left to it), and `encode` is
-- encodeURIComponent.
--
-- Reconciliation models web/src/live-reconciliation.ts: the test by which the room accepts a snapshot.
--
-- Operations models web/src/live-operations.ts: the tracker of the operations that were sent and are not yet
-- acknowledged, as a list in the insertion order of the Map, and the classes of their errors.
--
-- Wire models web/src/live-wire.ts: the decoder of the server's messages, from the JSON values of Json to the
-- events of Wire.Types. Wire.Encode writes the wire format down from the sender's side, as the reference that
-- the decoder is judged by. The date parser of the platform is the parameter `to_iso`, of which one theorem
-- assumes that its results are fixed points. Layout has the workspace presets of web/src/live-layout.ts, and
-- Layout.Preferences the one that a browser remembers for a room.
--
-- Storage is localStorage, in which any reading or writing may be refused. Identity models
-- web/src/live-identity.ts, the identity of a browser in a room: Identity.Stable has the sequences of what the
-- tabs of a browser do. A call runs to its end before the next, as under the lock that the code takes; tabs
-- that interleave within a call, where there is no lock, are not modelled.
--
-- RoomUi models parts of web/src/live-room-ui.ts: RoomUi.Tabs the drag of a tab and the keys of a menu,
-- RoomUi.Names the name of a new tab, RoomUi.Cursors the cursors of the other participants and the time at which the next of their labels ends,
-- with the date parser as a parameter.
--
-- Collab models diffLiveDocuments of web/src/live-collab.ts, on lists of UTF-16 units. The `left` of its two
-- loops is the number of rounds that their bounds leave, so they end as the source's do. Applying a change
-- set is the editor library's, a parameter with two hypotheses in the theorem that needs it.
--
-- LiveRoom models the handlers of web/src/live-room.tsx. The state `Room` is what the component's refs hold:
-- documents, editors, synchronized contents, tracker and flags. LiveRoom.Documents has the `changes` event
-- (applyDocumentEvent), LiveRoom.Metadata the events of the tabs (applyMetadataEvent), LiveRoom.Reconcile the
-- snapshot (reconcileSnapshot), LiveRoom.Outbound what the room sends (flushChanges, replayPendingMetadata), with
-- the connection's controller for the socket, LiveRoom.Commands the commands of the tabs (sendMetadata and its
-- callers), and LiveRoom.Events the dispatcher (handleEvent, recoverOperationError, enterRecovery), in which
-- the answers of the snapshots' controller are arguments. LiveRoom.Resyncing puts the parts together: the
-- options that the room gives to the controller of Resync, handleEvent with that controller, and the runs of
-- both (`live`), whose steps are the controller's inputs, wire events and edits, each with what the browser is
-- like at the time; a joined socket and the flush timer have no step there. Resync.Owner has what the owner of
-- a controller may rely on, as the interface IsOwner that the room fills. LiveRoom.Exports has livePasteExport,
-- recoveryText and the draft of exportPaste. The Modes children say what the handlers leave
-- of the recovery and the connection. Each handler is a function from state to state;
-- CodeMirror is the interface `Editing`, in which `none` stands for an exception. LiveRoom.Metadata.Abstract
-- is the abstract specification of the tabs: a list of ids, names and languages without positions.
-- makeLiveEditorState is web/src/live-editor.tsx's; the queue, the updates of a snapshot and the rebase
-- are web/src/live-collab.ts's. A mounted view holds the state of the editors' map and hands its new state back.
-- Scroll positions, the count of the room's bytes, presence, the loading indicator, the panes' layout, the dialogs
-- and the rendering are not modelled.
--
-- Crypto models web/src/crypto.ts, with bytes as numbers and the texts of base64 as character codes. btoa and
-- atob are written out; AES-GCM, UTF-8 with JSON and the random bytes are parameters. Search models
-- web/src/search.ts; the fuel of its loop is one more than the length of the text, which is proved enough.
--
-- Numbers of the source are the native ℕ where the code has checked that they are safe integers; Json.Number
-- tells the others apart. Texts that are only compared are native strings.
pub mod Common
pub mod Json
pub mod Layout
pub mod Storage
pub mod Identity
pub mod Wire
pub mod Reconciliation
pub mod Operations
pub mod Connection
pub mod Api
pub mod LiveApi
pub mod LiveRoom
pub mod RoomUi
pub mod Collab
pub mod Search
pub mod Crypto
pub mod Resync
