-- ===== src/Tests.antt =====
-- The theorems applied at concrete inputs, and runs of the definitions.
mod Retries
mod Queries
mod Memory
mod Addresses
mod Orchestration
mod Processing
mod Transactions
mod Limits
mod Pages
mod Responses
mod Attributes
mod ReadBack
mod Decoded
mod Tables
mod Views
mod Inserted
mod Prepared
mod Volumes
mod Launched
mod Limited
mod Fetched
mod Hooked
