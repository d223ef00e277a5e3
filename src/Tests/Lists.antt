-- ===== src/Tests/Lists.antt =====
-- The theorems about lists at concrete inputs.
use zam_tok.Prelude.{[], ◌∷◌, codes, ◌≡◌}
use zam_tok.Util.{Req}
use zam_tok.Http.Lists.{print_list}
use zam_tok.Http.Lists.Printed.{if_fits, json_list, print_list_lem}

abbrev friends_request : Req
friends_request = record {
  str_method = codes "GET";
  str_uri = codes "/friends?user_id=alice";
  str_version = codes "HTTP/1.1";
  t_content_headers = [];
  i_content_header_count = 0;
  str_body = [];
}

print_list_lem_example :
    print_list (codes "{}" ∷ codes "{}" ∷ []) ≡ if_fits (json_list (codes "{}" ∷ codes "{}" ∷ []))
print_list_lem_example = print_list_lem (codes "{}" ∷ codes "{}" ∷ [])
