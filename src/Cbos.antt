-- ===== src/Cbos.antt =====
-- app/clients/cbos_client.py: what the client's interface hands back, and how it is decoded.
pub mod Value
pub mod Reservation
pub mod Rule
