-- ===== src/Store/Jobs.antt =====
-- internal/store/workflows.go: creating jobs, leasing them to workers, retrying and ending them.
-- `now` is the clock's reading in Unix seconds, `fresh` the id that `newStoreID` drew, if it could.
pub mod Values
pub mod Create
pub mod Lease
pub mod Status
pub mod WellFormed
pub mod Created
pub mod Claimed
pub mod Trace
pub mod Order
pub mod Granted
