-- ===== src/Cms.antt =====
-- apps/cms/src/module/account/account.service.ts, the accounts in the back office: notifications,
-- locks, eKYC and the commissions of partners.
pub mod Commissions
pub mod Kyc
pub mod Locks
pub mod Notices
mod Tests
