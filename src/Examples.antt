-- ===== src/Examples.antt =====
-- The theorems at concrete inputs, and tests of the definitions, one module for each part.
mod Log
mod Service
mod Order
mod Device
mod Ota
mod Router
mod Org
mod Account
mod Server
mod Activation
mod Types
