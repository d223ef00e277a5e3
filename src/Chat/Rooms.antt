-- ===== src/Chat/Rooms.antt =====
-- The client's requests on rooms as the server's handlers read them, from the bytes that the client sends.
use zam_tok.Prelude.{
  ◌<◌, ℤ, is_neg, true, false, [], some, Bytes, codes, ◌≡◌, arith, length, length-append,
}
use zam_tok.CString.Format.{fit-fits}
use zam_tok.Codes.{ErrCode}
use zam_tok.Util.{Req}
use zam_tok.World.{Platform, World}
use zam_tok.Http.Users.{is_method}
use zam_tok.Http.Rooms.{
  create_fields, join_room_fields, asked_room, create_room, join_room, create_room_steps,
  join_room_steps,
}
use zam_tok.Chat.{create_room_json, join_room_json, chat_create_room, chat_join_room}
use zam_tok.Chat.Fields.{
  IsReadable, create_body, join_room_body, values, bind-create_room_json, bind-join_room_json,
}
use zam_tok.Chat.Requests.{
  request, post-request, length-request, http_get_body-request, bind_fields-bound,
}

module _ (write : ℤ → Bytes → ℤ) (socket : ℤ) (up : is_neg socket ≡ false) where
  -- On an open socket `chat_create_room` hands the whole request to `write`, uncut, for a room whose
  -- fields can be read back.
  pub chat_create_room-request :
      (room_id password user_id room_type members : Bytes)
      → IsReadable [] (create_body room_id password user_id room_type members)
      → (chat_create_room write socket room_id password user_id room_type members).1
        ≡ some
            (request (codes "/room") (create_room_json room_id password user_id room_type members))
  unfolding chat_create_room
  chat_create_room-request room_id password user_id room_type members
        (_, a, _, (_, b, _, (_, c, _, (_, d, _, (_, e, _, _))))) =
      let body = create_room_json room_id password user_id room_type members in
      let short : length body < 1024 = omega (
        arith,
        a.fits,
        b.fits,
        c.fits,
        d.fits,
        e.fits,
        length-append {0} room_id,
        length-append {0} password,
        length-append {0} user_id,
        length-append {0} room_type,
        length-append {0} members,
      ) in
      rw (up, fit-fits 1024 body short)
        (post-request write socket up 2048 (codes "/room") body
          (omega (arith, length-request write socket up (codes "/room") body)))

  -- On an open socket `chat_join_room` hands the whole request to `write`, uncut, for an id and a
  -- password that can be read back.
  pub chat_join_room-request :
      (room_id password : Bytes)
      → IsReadable [] (join_room_body room_id password)
      → (chat_join_room write socket room_id password).1
        ≡ some (request (codes "/room/join") (join_room_json room_id password))
  unfolding chat_join_room
  chat_join_room-request room_id password (_, a, _, (_, b, _, _)) =
      let body = join_room_json room_id password in
      let short : length body < 256 =
        omega (arith, a.fits, b.fits, length-append {0} room_id, length-append {0} password) in
      rw (up, fit-fits 256 body short)
        (post-request write socket up 1024 (codes "/room/join") body
          (omega (arith, length-request write socket up (codes "/room/join") body)))

module _ {P : Platform} (q : Req) (posted : is_method (codes "POST") 4 q ≡ true) (w : World P) where
  -- For a POST request, the steps of `http_create_room` on what `chat_create_room` sends create the very
  -- room that the client sent, where its fields can be read back.
  pub create_room_steps-request :
      (room_id password user_id room_type members : Bytes)
      → IsReadable [] (create_body room_id password user_id room_type members)
      → create_room_steps
          (request (codes "/room") (create_room_json room_id password user_id room_type members))
          q
          w
        ≡ create_room room_id
            (asked_room (values (create_body room_id password user_id room_type members)))
            w
  unfolding create_room_steps
  create_room_steps-request room_id password user_id room_type members h =
      let text = create_room_json room_id password user_id room_type members in
      let body = http_get_body-request (codes "/room") text (omega arith) in
      ground (
        arith,
        body,
        bind_fields-bound text create_fields
            (values (create_body room_id password user_id room_type members)) w
            (bind-create_room_json room_id password user_id room_type members 200
              ErrCode.invalid_params h),
      )

  -- For a POST request, the steps of `http_join_room` on what `chat_join_room` sends join the room with
  -- the id and the password that the client sent, where they can be read back.
  pub join_room_steps-request :
      (room_id password : Bytes)
      → IsReadable [] (join_room_body room_id password)
      → join_room_steps (request (codes "/room/join") (join_room_json room_id password)) q w
        ≡ join_room room_id password w
  unfolding join_room_steps
  join_room_steps-request room_id password h =
      let body =
        http_get_body-request (codes "/room/join") (join_room_json room_id password)
          (omega arith) in
      ground (
        arith,
        body,
        bind_fields-bound (join_room_json room_id password) join_room_fields
            (values (join_room_body room_id password)) w
            (bind-join_room_json room_id password 200 ErrCode.invalid_params h),
      )
