-- ===== src/Examples.antt =====
-- Concrete uses of the theorems, and the parameters of the model by concrete functions.
mod Instances
mod Codes
mod Lists
mod Consumers
mod Producers
mod Threads
mod Admins
mod Handles
