-- ===== src/Routing.antt =====
-- quickapi/routing: path templates, routes, the registry and the router.
pub mod Template
pub mod Route
pub mod Registry
pub mod Router
