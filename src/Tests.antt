-- ===== src/Tests.antt =====
-- Concrete instances of the parameters, tests on them, and the theorems at concrete inputs.
mod Instances
mod Trees
mod Records
mod Rings
mod Searches
mod Registries
mod Lifetimes
mod Texts
mod Machines
mod Daemons
mod Clients
