-- ===== src/Samples.antt =====
-- Tests of the definitions on small inputs, and the theorems applied at such inputs.
mod Chunks
mod Uploads
mod Queue
mod Batches
mod Callers
mod Searches
mod Lifecycles
mod Slots
mod Systems
mod Routes
mod Processes
mod Indexes
mod Crashes
mod Connections
mod Settings
mod Documents
mod Models
