-- ===== src/Daemon.antt =====
-- packages/daemon: listens to waclaw, forwards audio events to the web application, and sends the
-- replies.
pub mod Forwarder
pub mod Client
