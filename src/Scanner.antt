-- ===== src/Scanner.antt =====
-- internal/scanner: what a scan does with the page that the browser returns, the address discovery,
-- and the user agents.
pub mod Detect
pub mod Agents
pub mod Rules
pub mod Implied
pub mod Rotation
pub mod Emails
pub mod Contacts
pub mod Walk
pub mod Contact
pub mod Offers
pub mod Pages
pub mod Append
pub mod Flow
pub mod Outcome
pub mod Progress
mod Examples
