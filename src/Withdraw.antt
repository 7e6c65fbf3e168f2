-- ===== src/Withdraw.antt =====
-- Withdrawals: the fees (`Fee`, `FeeLaws`), the rules before an application (`Rules`, `RulesLaws`), the
-- flows of backend/src/services/withdraw_service.py (`Service`) and their reviews (`Review`, `ReviewLaws`).
pub mod Fee
pub mod FeeLaws
pub mod Rules
pub mod RulesLaws
pub mod Service
pub mod Review
pub mod ReviewLaws
