-- ===== src/Actions.antt =====
-- src/actions: the privileged restart helper, its policy and ledger, and its clients.
pub mod Types
pub mod Unit
pub mod Policy
pub mod Helper
pub mod Connection
pub mod Client
pub mod Ledger
pub mod Mock
