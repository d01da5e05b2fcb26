-- ===== src/Examples.antt =====
-- Concrete inputs for the theorems, and runs of the definitions on them.
pub mod Money
pub mod Days
pub mod Sales
pub mod Seats
pub mod Gates
pub mod Tariffs
pub mod Sample
pub mod Paying
pub mod Orders
pub mod Bills
pub mod Crews
pub mod Logins
