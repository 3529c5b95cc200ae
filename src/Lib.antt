-- ===== src/Lib.antt =====
-- Syrinx backend: server-qualified ids, role tiers, permission sets, the field sets that are signed,
-- the chain of server keys, the public ledger, admin actions, in which one admin opens a request and a
-- second one decides on it, and what members do to one another: flags, follows, mentions, verification
-- windows and mail, with the queue of events that are owed to other servers.
--
-- Which file is about which code (paths from the repository's root):
--   Identity      src/backend/identity_id.go: parseIdentityID, parseKeyFingerprint, authorOf, ...
--   Roles         src/backend/roles.go: tiers, root, what a signup and a profile may carry
--   Permissions   src/backend/admin.go: parsePermissionSet, formatPermissionSet
--   Signing       src/backend/identity.go and canonicalJSON of utils.go: what is signed is a field set
--   KeyChain      src/backend/server_key.go: chainOrder, walkRevocationChain
--   Store         src/backend/db.go: the tables as records, and the queries that handlers share;
--                 Store/PeerEvents is peer_event_queue.go, Store/Flags what a removal does to flags
--   Ledger        src/backend/ledger_chain.go and ledger.go: appendLedgerEntryTx, ledgerApprovedEntry;
--                 Ledger/Pages is the reading side, GetLedger
--   Admin         src/backend/admin.go: Rules (who may ask and decide), Validate
--                 (validateNewAdminRequest), Open (OpenAdminRequest), Decide (DecideAdminRequest), Moot
--                 (dropFromAdminRequests), Foreign (verifyForeignAdminRequest), and Executors, with
--                 admin_suspend.go, admin_promote.go, admin_kick.go, admin_rebind.go, admin_invites.go, admin_broadcast.go
--   Admin/Steps   the step relation of these operations on the database; Admin/Open/Signer is what a
--                 caller may sign with, Admin/Foreign/Owner whose key an id names
--   Delivery      src/backend/federation_delivery.go: drainPeerEventsWith, with the queue's operations in
--                 services.go; Store/PeerEvents is what fills the queue
--   Presence      src/backend/verification_window.go, and presence in services.go; Presence/Steps
--                 is the step relation of these
--   Flags         src/backend/flags.go: FlagReed, withdrawFlag, DismissCase, DeleteFlagCase; Flags/Steps
--                 is the step relation of these
--   Mentions      src/backend/mentions.go
--   Follows       src/backend/follows.go: the certificates, the edges and who is owed what; Follows/Steps is
--                 the step relation of these
--   Mailbox       src/backend/mailbox.go
--   Common        Go's results and errors, lists under Boolean tests, texts, tables with a key
--   Witness       runs at concrete inputs
--
-- How they meet: Admin reads and writes the tables of Store, checks signatures and countersigns through
-- Signing, names roles and permissions by Roles and Permissions, and appends to Ledger what it has
-- executed. An operation takes the database and returns the next one or an error; an error leaves the
-- database as it was, which is what rolling a transaction back does. A decision and the
-- closing of a moot request are modelled in two halves, before and inside the transaction, so that
-- other steps may commit in between. The ledger's
-- advisory lock and the locks on rows make each half one step. Times are whole seconds; the clock stands
-- still within one half.
--
-- What stands outside: serialization of signed fields (RFC 8785) and OpenPGP are the parameter
-- `Crypto`, a payload is its field set; UUIDs and grapheme counts are fields of `Env`; the revocations
-- and keys of another server are the parameter `ServerKeySource`, its users' keys and its older keys
-- the parameters `resolve` and `fetch`. The bodies of the events in a queue, the calls to a peer, the
-- hooks that run on an answer and the clock of a drain are parameters too. Calls and hooks write what
-- no event is built from in Db (keys of the peer's users) or what Db does not hold (blocks,
-- follow_certs), in a state of their own. That an answer in lockdown marks the peer down is modelled;
-- that fetching a key for the block in a 403 could do so too is not. No one else writes between two
-- steps of a drain.
-- Database and network failures are left out: each would answer an error and change nothing. A
-- database sequence is taken back with its transaction, where a real one leaves a gap: a chain allows
-- gaps.
--
-- Not modelled: realtime delivery and the other relays between servers, which are sockets and HTTP;
-- recovery, reeds, threads, blocks and vouches; the list of flag cases; the handlers around follows;
-- and what runs after a commit (sockets, mail, metrics).
--
-- Bounds: `walk_revocation_chain` is recursive on its hops, `max_server_key_hops`, as in the source;
-- `follow` on the number of entries that are missing; `print_decimal` on 20 digits, which 64 bits fit;
-- `drain_loop` on fuel, of which one more than the events owed is enough.
mod Common
pub mod Identity
pub mod Roles
pub mod Permissions
pub mod Signing
pub mod KeyChain
pub mod Store
pub mod Admin
pub mod Ledger
pub mod Delivery
pub mod Presence
pub mod Mentions
pub mod Flags
pub mod Follows
pub mod Mailbox
pub mod Witness
