-- ===== src/Server/Start/Rendezvous.antt =====
-- A client's socket is connected to the address that the server's socket is bound to.
use libvoyeur.Kernel.{Kernel}
