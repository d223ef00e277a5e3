-- ===== src/Codes/Size.antt =====
-- The sizes of the program's character arrays and tables (src/SERVER/zt_http.h,
-- src/SERVER/zt_redis.h, src/common/zt_chat.h).
use zam_tok.Prelude.{ℕ}

abbrev pub user_id : ℕ
user_id = 16

abbrev pub name : ℕ
name = 16

abbrev pub password : ℕ
password = 16

abbrev pub mdn : ℕ
mdn = 16

abbrev pub room_id : ℕ
room_id = 64

abbrev pub room_type : ℕ
room_type = 8

abbrev pub room_members : ℕ
room_members = 256

abbrev pub method : ℕ
method = 8

abbrev pub uri : ℕ
uri = 256

abbrev pub version : ℕ
version = 16

abbrev pub reason : ℕ
reason = 64

abbrev pub value : ℕ
value = 128

abbrev pub header_name : ℕ
header_name = 16

abbrev pub header_count : ℕ
header_count = 16

abbrev pub header : ℕ
header = 256

abbrev pub code : ℕ
code = 64

abbrev pub message : ℕ
message = 128

abbrev pub body_data : ℕ
body_data = 1024

abbrev pub key : ℕ
key = 128

abbrev pub created : ℕ
created = 32

abbrev pub wire : ℕ
wire = 1408

abbrev pub room_count : ℕ
room_count = 64

abbrev pub friend_count : ℕ
friend_count = 64
