-- ===== src/Tests.antt =====
-- Concrete devices, and the theorems applied to them.
mod Sample
mod Firmware
mod Storage
mod Protocol
mod Wifi
mod Gtk
mod Frames
mod Web
mod Session
mod Devices
mod Composition
mod Console
mod Handshake
