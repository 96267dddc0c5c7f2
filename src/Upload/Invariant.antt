-- ===== src/Upload/Invariant.antt =====
-- What holds of the tables between two transactions, and that every transaction of the service but
-- the administrative status update keeps it.
pub mod Keep
pub mod Changes
pub mod Steps
pub mod Onward
