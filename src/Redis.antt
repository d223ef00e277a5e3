-- ===== src/Redis.antt =====
-- src/SERVER/zt_redis.c: the commands that the server sends to Redis, and how it reads the replies.
-- `Keys` has the structures, keys and commands, `Calls` one command, `Users` and `Rooms` the functions.
pub mod Keys
pub mod Calls
pub mod Users
pub mod Rooms
pub mod RoomList
pub mod Issued
pub mod Laws
pub mod Families
