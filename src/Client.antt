-- ===== src/Client.antt =====
-- The client program: `BrpcClient`, which uploads files, and the menu.
pub mod Station
pub mod Upload
pub mod Terminal
pub mod Menu
