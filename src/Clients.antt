-- ===== src/Clients.antt =====
-- pkg/openstack: the clients of Nova and Neutron, which implement the interfaces of an executor.
pub mod Metrics
pub mod Nova
pub mod Neutron
pub mod Factory
pub mod Logger
pub mod Laws
pub mod Respects
pub mod Growth
