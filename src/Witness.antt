-- ===== src/Witness.antt =====
-- The theorems at concrete inputs: a server "s" with its root, an admin "a@s" and a user "b@s".
pub mod Data
pub mod AdminRuns
pub mod LedgerRuns
pub mod PeerRuns
pub mod DeliveryRuns
pub mod PresenceRuns
pub mod MentionRuns
pub mod FlagRuns
pub mod FollowRuns
pub mod MailRuns
pub mod KeyRuns
pub mod TextRuns
