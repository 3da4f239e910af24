-- ===== src/Kv.antt =====
-- The key-value store of kv/src: commands, the storage, and the store on top of the consensus layer.
pub mod Command
pub mod Store
pub mod Client
pub mod Server
