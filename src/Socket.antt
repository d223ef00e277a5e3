-- ===== src/Socket.antt =====
-- `socket_send` of src/SERVER/zt_socket.c.
use zam_tok.Prelude.{ℤ, is_neg, [], ◌∷◌, ◌++◌, Bytes, if◌then◌else◌}
use zam_tok.Codes.Rc
use zam_tok.World.{Platform, World}

module _ {P : Platform} where
  -- `write(socket, buf, len)`
  unfoldable pub write_all : ℤ → Bytes → World P → ℤ × World P
  write_all socket buf w = (P.write socket buf, record w { sent = w.sent ++ (socket, buf) ∷ [] })

  -- What `write` returned, or a return code, which is positive too.
  unfoldable pub socket_send : ℤ → Bytes → World P → ℤ × World P
  unfolding write_all
  socket_send socket [] w = (Rc.arg_invalid, w)
  socket_send socket (c ∷ buf) w =
      let written = write_all socket (c ∷ buf) w in
      if is_neg socket
      then (Rc.arg_invalid, w)
      else if is_neg written.0
      then (Rc.socket, written.1)
      else written
