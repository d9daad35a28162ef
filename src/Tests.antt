-- ===== src/Tests.antt =====
-- Runs of the driver at concrete inputs.
mod System
mod Volumes
mod Attachment
mod Listing
mod Helpers
mod Node
mod Staging
mod Driver
mod Lifecycle
mod Lab
mod Integ
mod Cleanup
