-- ===== src/Proxy/RespUtil.antt =====
-- proxy/resp_util.rs, over the crates `resp` and `url`.
pub mod Laws
use red_monkey.Common.{
  Text, Bytes, codes, ◌≡◌, Option, none, some, List, [], ◌∷◌, ◌++◌, Result, ok, err, ok_or, map_err,
}
use red_monkey.Proxy.Error.{
  AnyError, RespErrors, resp_error, decode_error, decoder_feed_error, resp_arr_empty_error,
  unsupported_resp_arr_val_error, unsupported_resp_val_error, url_error, other_error,
}

abbrev pub crlf : Bytes
crlf = 13 ∷ 10 ∷ []

-- The variants of `resp::Value` that the program matches; `other` is any further one.
pub data ValueView (V : Type 0) : Type 0 where
  array : List V → ValueView V
  bulk string : Text → ValueView V
  other : ValueView V

-- The crate `resp`: its values and its decoder. `read` gives the first decoded value.
pub record Resp : Type 1 where
  pub Value : Type 0
  pub view : Value → ValueView Value
  pub error_value : Text → Value
  pub encode : Value → Bytes
  pub Decoder : Type 0
  pub new_decoder : Decoder
  pub feed : Decoder → Bytes → Result Text Decoder
  pub read : Decoder → Option Value
  -- An error is encoded as a line that begins with `-`.
  pub encode-error_value :
      (message : Text) → encode (error_value message) ≡ codes "-" ++ message ++ crlf

-- The crate `url`: a text is parsed, and a URL may have a host.
pub record UrlCrate : Type 1 where
  pub Url : Type 0
  pub parse : Text → Result Text Url
  pub host_str : Url → Option Text

module _ (r : Resp) where
  abbrev pub read_value : Option r.Value → Result AnyError r.Value
  read_value (some val) = ok val
  read_value none = err (resp_error decode_error)

  abbrev pub read_fed : Result Text r.Decoder → Result AnyError r.Value
  read_fed (ok decoder) = read_value (r.read decoder)
  read_fed (err e) = err (resp_error (decoder_feed_error e))

  unfoldable pub decode : Text → Result AnyError r.Value
  decode req_body = read_fed (r.feed r.new_decoder req_body)

  abbrev pub command_text : ValueView r.Value → Result AnyError Text
  command_text (bulk v) = ok v
  command_text (string v) = ok v
  command_text (array l) = err (resp_error unsupported_resp_arr_val_error)
  command_text other = err (resp_error unsupported_resp_arr_val_error)

  abbrev pub command_of : ValueView r.Value → Result AnyError Text
  command_of (array []) = err (resp_error resp_arr_empty_error)
  command_of (array (first ∷ rest)) = command_text (r.view first)
  command_of (bulk v) = err (resp_error unsupported_resp_val_error)
  command_of (string v) = err (resp_error unsupported_resp_val_error)
  command_of other = err (resp_error unsupported_resp_val_error)

  unfoldable pub fetch_redis_command : r.Value → Result AnyError Text
  fetch_redis_command resp_vals = command_of (r.view resp_vals)

  unfoldable pub encode_error_message : Text → Result AnyError Bytes
  encode_error_message err_message = ok (r.encode (r.error_value err_message))

module _ (u : UrlCrate) where
  abbrev pub host_of : u.Url → Result AnyError Text
  host_of url =
      ok_or (u.host_str url) (other_error (codes "Error fetching the hostname from redis address"))

  abbrev pub host_of_parsed : Result Text u.Url → Result AnyError Text
  host_of_parsed (err e) = err (url_error e)
  host_of_parsed (ok url) = host_of url

  -- Without a host the address is parsed again, behind the scheme `redis://`.
  abbrev pub host_or_again : Text → u.Url → Option Text → Result AnyError Text
  host_or_again redis_server_addr url none =
      host_of_parsed (u.parse (codes "redis://" ++ redis_server_addr))
  host_or_again redis_server_addr url (some host) = host_of url

  abbrev pub host_of_first : Text → Result Text u.Url → Result AnyError Text
  host_of_first redis_server_addr (err e) = err (url_error e)
  host_of_first redis_server_addr (ok url) = host_or_again redis_server_addr url (u.host_str url)

  unfoldable pub get_host_name : Text → Result AnyError Text
  get_host_name redis_server_addr = host_of_first redis_server_addr (u.parse redis_server_addr)
