-- ===== src/Lib.antt =====
-- PeerSwap: swaps of on-chain money against the balance of a Lightning channel, between the two
-- peers of the channel. One peer, the maker, funds an opening transaction; the other, the taker,
-- pays a claim invoice and takes the money with its preimage. If the payment does not come the
-- maker takes the money back, in cooperation or after the CSV time. In a swap-in the requesting
-- peer is the maker, in a swap-out it is the taker, so there are four roles.
--
-- The parts, and the files that model them:
--   * Swap/State, Swap/StateText: the states and events of swap/states.go, and their strings.
--   * Swap/Message, Swap/Context: the messages of swap/messages.go, their checks (`Validate`) and
--     how each enters the swap's data (`ApplyToSwapData`); Swap/Scid: `validateScid`; Swap/Hex:
--     hexadecimal texts and swap ids. Messages, Messages/Hex: the message types of
--     messages/types.go, and their texts; Messages/Sender: the manager of messages/sender.go.
--   * Swap/Data: `SwapData` of swap/swap.go with its getters; Swap/Timelock: swap/timelock.go,
--     `validateClaimInvoice` and `checkPaymentWindow`.
--   * Swap/Services: the interfaces of swap/services.go. What other components answer is a record
--     of values and functions, a parameter of every definition that asks; what a call changes
--     outside is an `Effect`, and a run keeps the list of its effects, newest first.
--   * Swap/Flow: the body of an action. It reads and writes the data, makes calls, and may leave
--     early with an event; a nil pointer that is followed is a panic. Flow/Keeps, Flow/Ends and
--     Flow/At are the rules by which the proofs follow an action.
--   * Swap/Action: one module for each group of actions of swap/actions.go, and `execute`, which
--     runs the action that a state names. Action/Execute says which kinds of call each can make and
--     with which events it can end.
--   * Swap/Table: the tables of swap/swap_out_sender.go, swap/swap_out_receiver.go,
--     swap/swap_in_sender.go and swap/swap_in_receiver.go.
--   * Swap/Machine: `SendEvent` and `Recover` of swap/fsm.go. Machine/Start: the constructors of the
--     four roles and what a restart loads. Machine/History: the life of a swap, as a sequence of
--     events and restarts. Machine/Region and Machine/Steps: a set of states that a table closes,
--     followed through every step; Machine/Terms and Machine/SameSwap: what no step changes. The other
--     modules below Machine use them.
--   * Swap/Service: the active swaps of swap/service.go, with the lock of a channel, and the bound on
--     the amount of a swap-in. Service/Serving: its methods as a monad over the active swaps and the
--     calls made; Service/Handlers: the events of messages, payments, watchers and timers;
--     Service/Requests: the requests of peers; Service/Initiate: `SwapIn` and `SwapOut`;
--     Service/Receive: `OnMessageReceived`; Service/Recovery: the restart; Service/Calls: any
--     sequence of these. Service/Exclusive, Service/Heard and Service/Screen hold the proofs.
--   * Premium: the rates of premium/premium.go and what they make of an amount. Premium/Store:
--     premium/store.go and the setting, over a bucket; Premium/Decimal: how a rate is written and read.
--   * Policy: policy/policy.go, the allowlist and the other settings of a node. Policy/Text: the lines of
--     its file; Policy/Change: the methods that rewrite the file, over what the file system and the
--     parser answer; Policy/Current and Policy/Allowed: what they bring about.
--   * Bolt: what the stores use of a bucket of bbolt, and what bbolt promises of it. Swap/Store:
--     swap/store.go over such a bucket, with the map that it implements in Store/Refines.
--   * Version: version/service.go and version/store.go; Version/Compare: version/compare.go, with the
--     order of version texts in Version/Order.
--   * PeerSync: peersync/peer.go; PeerSync/Snapshot: peersync/capability_snapshot.go; PeerSync/Record and
--     PeerSync/Handler: peersync/store.go and peersync/message_handler.go; PeerSync/Poller: the rules of
--     peersync/peersync.go and peersync/poller.go that say when a peer is polled or asked.
--     PeerSync/Sweep: a round of polls, peersync/guard.go and peersync/compatibility.go; PeerSync/Cleanup:
--     the sweep of expired peers; PeerSync/Local: what the node tells of itself, and the first sync.
--   * Tests: a world in which every call succeeds, and the theorems on concrete swaps.
--
-- The machine's mutex lets one event in at a time, so interleavings are sequences of events. The
-- methods of the service run one after the other: what two of them do to the active swaps in between
-- (a second lock before the first event) is not modelled. Each
-- action of a run has its own answers of the services (`World`), and within an action a value that
-- is asked for again names its round, so nothing is assumed to be the same twice.
--
-- Bounds: numbers are unbounded where the source cannot overflow, and wrap as the source's 32 or 64
-- bits where it computes with them (Prelude/Words). The loop of `SendEvent` runs on fuel 64: along
-- the edges that the loop takes itself a rank of at most 6 falls, and an action is tried again at
-- most 20 times, so that 28 rounds are the most there can be. The loop of the claim payment runs on
-- the number of ticks that fit into its time, a parameter of the services.
--
-- Not modelled: logging; the ticks that repeat a message until an answer comes; the random delay
-- between retries; JSON, keys, hashes and the random source, which are parameters. In
-- `SendEvent` the store is an answer, and its calls are the effect `stored`. A crash inside
-- `SendEvent`, between two stores, is not a step of a history. `SetLabel` is taken as a call
-- whose error the source only logs. A restart resumes from the machine in memory without what is not
-- stored; when the last store failed the program resumes from an earlier state instead.
pub mod Prelude
pub mod Messages
pub mod Premium
pub mod Policy
pub mod Bolt
pub mod Version
pub mod PeerSync
pub mod Swap
pub mod Tests
