-- ===== src/Hdl/Send.antt =====
-- src/SERVER/zt_hdl.c: sending a response.
use zam_tok.Prelude.{ℤ, is_neg, ◌++◌, Bytes, codes, leb, if◌then◌else◌, length}
use zam_tok.CString.{decimal}
use zam_tok.Codes.Rc
use zam_tok.Codes.Size
use zam_tok.Util.{Res}
use zam_tok.World.{Platform, World}
use zam_tok.Socket.{socket_send}

-- The text that is printed to `wire`.
unfoldable pub wire_text : Res → Bytes
wire_text r =
    codes "HTTP/1.1 "
    ++ (decimal r.i_status_code
        ++ (codes " "
            ++ (r.str_reason
                ++ (codes "\r\nContent-Type: application/json\r\nContent-Length: "
                    ++ (decimal (length r.t_body.str_data)
                        ++ (codes "\r\n\r\n" ++ r.t_body.str_data))))))

module _ {P : Platform} where
  -- `hdl_send_http_wire`, which is all that `hdl_send_http_json` calls
  unfoldable pub hdl_send_http_json : ℤ → Res → World P → ℤ × World P
  hdl_send_http_json client_fd response w =
      let wire = wire_text response in
      let sent = socket_send client_fd wire w in
      if is_neg client_fd
      then (Rc.arg_invalid, w)
      else if leb Size.wire (length wire)
      then (Rc.arg_invalid, w)
      else (if is_neg sent.0 then Rc.socket else Rc.ok, sent.1)

  unfoldable pub hdl_bad_request : ℤ → World P → World P
  hdl_bad_request client_fd w =
      if is_neg client_fd
      then w
      else (socket_send client_fd (codes "HTTP/1.1 400 Bad Request\r\nContent-Length: 0\r\n\r\n")
          w).1
