-- ===== src/Tests.antt =====
-- The theorems at concrete inputs, and runs of the definitions.
mod World
mod Broker
mod Issue
mod Jobs
mod Tokens
mod PhoneHome
mod Drivers
mod Edge
mod Codes
mod Operations
mod Access
mod Inventory
mod Catalog
mod Fetch
