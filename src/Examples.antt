-- ===== src/Examples.antt =====
-- The theorems at concrete inputs, and tests of the definitions.
mod Buffers
mod Strings
mod Streams
mod Writing
mod Urls
mod Joins
mod Periods
mod Turns
mod Exchange
mod Queries
mod Statuses
mod Servers
mod Fields
mod Texts
mod Requests
mod Forms
