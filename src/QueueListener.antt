-- ===== src/QueueListener.antt =====
-- Package queuelistener: the ring of waiting connections, the listener over it, the sizes that it
-- gets from its options, and the loop that accepts from the network.
pub mod Ring
pub mod Listener
pub mod Options
