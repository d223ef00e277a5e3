-- ===== src/Http.antt =====
-- src/SERVER/zt_http.c: the request handlers. `Helpers` has the static functions, `Respond` the code
-- behind the label `next`, which is the same in each handler, `Users` and `Rooms` the handlers.
pub mod Helpers
pub mod Respond
pub mod Users
pub mod Rooms
pub mod Lists
pub mod RoomIds
pub mod ListRooms
pub mod Kept
pub mod Body
pub mod Quiet
pub mod Members
pub mod Answers
