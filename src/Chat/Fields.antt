-- ===== src/Chat/Fields.antt =====
-- The server reads back from the client's JSON bodies the fields that the client printed into them.
use zam_tok.Http.Rooms.{create_fields, join_room_fields}
use zam_tok.Prelude.{
  ℕ, ◌<◌, pos, List, [], ◌∷◌, ◌++◌, some, Bytes, codes, ◌≡◌, refl, ◌∙◌, arith, length, append-nil,
  append_assoc,
}
use zam_tok.Codes.Size
use zam_tok.Codes.{ErrCode}
use zam_tok.Util.{FieldSpec, Binding, msg_copy_json_string_field, bind_loop, http_bind_json_fields}
use zam_tok.Util.Json.{NoQuote, IsBefore, segments, quote, copy_field}
use zam_tok.Redis.Keys.{User}
use zam_tok.Http.Users.{join_fields, login_fields}
use zam_tok.Chat.{join_json, create_room_json, join_room_json, login_json}

-- A value that can be printed into an array of n bytes and between quotes, and is not empty.
pub record IsField (n : ℕ) (v : Bytes) : Type 0 where
  pub plain : NoQuote v
  pub positive : 0 < length v
  pub fits : length v < n

abbrev colon : Bytes
colon = codes ": "

-- A field of a body: its key without the quotes, its value, and the server's array for it.
pub record Field : Type 0 where
  pub key : Bytes
  pub value : Bytes
  pub size : ℕ

-- What stands between a value and the next key, or the end.
abbrev pub separator : List Field → Bytes
separator [] = codes "}"
separator (f ∷ r) = codes ", "

-- The body behind its first brace.
abbrev pub body_segments : List Field → List Bytes
body_segments [] = []
body_segments (f ∷ r) = f.key ∷ colon ∷ f.value ∷ separator r ∷ body_segments r

abbrev pub specs : List Field → List FieldSpec
specs [] = []
specs (f ∷ r) = record { str_json_key = quote f.key; sz_out = f.size } ∷ specs r

abbrev pub values : List Field → List Bytes
values [] = []
values (f ∷ r) = f.value ∷ values r

-- Each value fits its array, and no key is spelled like a segment before it.
abbrev pub IsReadable : List Bytes → List Field → Type 0
IsReadable before [] = Unit
IsReadable before (f ∷ r) =
    NoQuote f.key
    × IsField f.size f.value
    × IsBefore f.key before
    × IsReadable (before ++ f.key ∷ colon ∷ f.value ∷ separator r ∷ []) r

-- One round of the binding loop.
bind_some :
    (body : Bytes) (f : FieldSpec) (fs : List FieldSpec) (outs : List Bytes) (n : ℕ) (e : ErrCode)
    {v : Bytes}
    → msg_copy_json_string_field body f.str_json_key f.sz_out ≡ some v
    → bind_loop body (f ∷ fs) outs n e ≡ bind_loop body fs (outs ++ v ∷ []) n e
unfolding bind_loop
bind_some body f fs outs n e h = rw (h, bind_loop)

abbrev pub bound : List Bytes → ℕ → ErrCode → Binding
bound outs n e = record { rc = pos 0; outs = outs; status = n; err_code = e }

bind_all :
    (before : List Bytes) (fs : List Field) (body : Bytes) (outs : List Bytes) (n : ℕ) (e : ErrCode)
    → IsReadable before fs
    → body ≡ codes "{" ++ segments (before ++ body_segments fs)
    → bind_loop body (specs fs) outs n e ≡ bound (outs ++ values fs) n e
bind_all before [] body outs n e h same = rw append-nil (unfold bind_loop in refl)
bind_all before (f ∷ r) body outs n e (hk, hv, hb, hr) same =
    bind_some body _ (specs r) outs n e (
      rw same (
        copy_field f.key f.value (codes "{") (separator r) before (body_segments r) f.size hk
          hv.plain (omega arith) hb hv.positive hv.fits))
    ∙ bind_all (before ++ f.key ∷ colon ∷ f.value ∷ separator r ∷ []) r body (outs ++ f.value ∷ [])
        n e hr (rw append_assoc same)
    ∙ rw append_assoc

abbrev pub join_body : User → List Field
join_body u =
    record { key = codes "user_id"; value = u.user_id; size = Size.user_id }
    ∷ record { key = codes "name"; value = u.name; size = Size.name }
    ∷ record { key = codes "password"; value = u.password; size = Size.password }
    ∷ record { key = codes "mdn"; value = u.mdn; size = Size.mdn }
    ∷ []

-- The server's binding loop reads out of the client's sign-up body the four values that were printed
-- into it, and leaves status and error code as they were, where each value is not empty, has no quote,
-- fits its array, and is not spelled like a key that comes after it.
pub bind-join_json :
    (u : User) (n : ℕ) (e : ErrCode)
    → IsReadable [] (join_body u)
    → http_bind_json_fields (join_json u) join_fields n e ≡ bound (values (join_body u)) n e
unfolding http_bind_json_fields
bind-join_json u n e h = bind_all [] (join_body u) (join_json u) [] n e h refl

abbrev pub login_body : Bytes → Bytes → List Field
login_body user_id password =
    record { key = codes "user_id"; value = user_id; size = Size.user_id }
    ∷ record { key = codes "password"; value = password; size = Size.password }
    ∷ []

-- The server's binding loop reads the id and the password out of the client's login body, where both
-- are not empty, have no quote and fit, and neither the id nor its key is spelled like a later key.
pub bind-login_json :
    (user_id password : Bytes) (n : ℕ) (e : ErrCode)
    → IsReadable [] (login_body user_id password)
    → http_bind_json_fields (login_json user_id password) login_fields n e
      ≡ bound (values (login_body user_id password)) n e
unfolding http_bind_json_fields
bind-login_json user_id password n e h =
    bind_all [] (login_body user_id password) (login_json user_id password) [] n e h refl

abbrev pub create_body : Bytes → Bytes → Bytes → Bytes → Bytes → List Field
create_body room_id password user_id room_type members =
    record { key = codes "room_id"; value = room_id; size = Size.room_id }
    ∷ record { key = codes "password"; value = password; size = Size.password }
    ∷ record { key = codes "user_id"; value = user_id; size = Size.user_id }
    ∷ record { key = codes "room_type"; value = room_type; size = Size.room_type }
    ∷ record { key = codes "members"; value = members; size = Size.room_members }
    ∷ []

-- The server's binding loop reads the five values out of the client's body for a new room, where each
-- is not empty, has no quote, fits its array, and is not spelled like a key that comes after it.
pub bind-create_room_json :
    (room_id password user_id room_type members : Bytes) (n : ℕ) (e : ErrCode)
    → IsReadable [] (create_body room_id password user_id room_type members)
    → http_bind_json_fields
        (create_room_json room_id password user_id room_type members)
        create_fields
        n
        e
      ≡ bound (values (create_body room_id password user_id room_type members)) n e
unfolding http_bind_json_fields
bind-create_room_json room_id password user_id room_type members n e h =
    bind_all [] (create_body room_id password user_id room_type members)
      (create_room_json room_id password user_id room_type members) [] n e h refl

abbrev pub join_room_body : Bytes → Bytes → List Field
join_room_body room_id password =
    record { key = codes "room_id"; value = room_id; size = Size.room_id }
    ∷ record { key = codes "password"; value = password; size = Size.password }
    ∷ []

-- The server's binding loop reads the id and the password out of the client's body for joining a room,
-- where both are not empty, have no quote and fit, and neither the id nor its key is spelled like a
-- later key.
pub bind-join_room_json :
    (room_id password : Bytes) (n : ℕ) (e : ErrCode)
    → IsReadable [] (join_room_body room_id password)
    → http_bind_json_fields (join_room_json room_id password) join_room_fields n e
      ≡ bound (values (join_room_body room_id password)) n e
unfolding http_bind_json_fields
bind-join_room_json room_id password n e h =
    bind_all [] (join_room_body room_id password) (join_room_json room_id password) [] n e h refl
