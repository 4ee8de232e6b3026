-- ===== src/Tests.antt =====
-- Tests: the model run on concrete inputs, and the theorems at inputs that meet their hypotheses.
mod Fixtures
mod Worker
mod Api
mod Platform
mod Streaming
mod Settings
mod Termination
mod System
mod Fetching
mod Delivery
mod Serving
mod Wire
mod Service
mod Records
mod Network
mod Recovery
