-- ===== src/Tests.antt =====
-- The properties at concrete inputs.
mod Routing
mod Security
mod Jobs
mod Services
mod Requests
mod Schema
mod Tools
mod Ml
mod App
mod Synaptic
mod Builtin
mod Asgi
