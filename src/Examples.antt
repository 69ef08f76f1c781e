-- ===== src/Examples.antt =====
-- Small scenarios for the components, each a concrete input of one or more theorems.
mod Circuits
mod Workers
mod Pools
mod Routes
mod Wire
mod Requests
mod Gateways
mod Handlers
mod Sockets
mod Registration
mod Settings
mod Sources
