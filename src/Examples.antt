-- ===== src/Examples.antt =====
-- Concrete runs of the code and instances of the theorems at inputs that exercise it.
mod Memory
mod Lists
mod Packets
mod Server
mod Threads
mod Tutorials
mod Alives
mod Producers
mod Tasks
mod Doubles
mod Selects
mod Waits
mod Clients
mod Sessions
mod Components
mod Chats
