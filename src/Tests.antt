-- ===== src/Tests.antt =====
-- Concrete inputs for the code of engine/, proxy/, middleware/ and runtime/, and what the theorems say of them.
mod Engine
mod Messages
mod Relay
mod Keys
mod Server
mod Storage
mod Records
mod Auth
mod Startup
