-- ===== src/Proxy/Error.antt =====
-- The errors of the proxy. `anyhow::Error` holds any of them; an error of another crate is known by
-- its message.
use red_monkey.Common.{Text, codes, ◌++◌}

-- proxy/resp_util.rs
pub data RespErrors : Type 0 where
  decode_error resp_arr_empty_error unsupported_resp_arr_val_error unsupported_resp_val_error :
      RespErrors
  decoder_feed_error : Text → RespErrors

-- The derived `Display`.
abbrev pub resp_errors_to_string : RespErrors → Text
resp_errors_to_string decode_error = codes "Error decoding request body to RESP values"
resp_errors_to_string (decoder_feed_error m) =
    codes "Error feeding request body to RESP decoder: " ++ m
resp_errors_to_string resp_arr_empty_error = codes "Error as RESP array is empty"
resp_errors_to_string unsupported_resp_arr_val_error =
    codes "Error as unsupported resp array value type for a redis command"
resp_errors_to_string unsupported_resp_val_error =
    codes "Error as resp value type not supported for redis command"

-- proxy/faulter.rs
pub data FaulterErrors : Type 0 where
  encode_err_msg_error : FaulterErrors

abbrev pub faulter_errors_to_string : FaulterErrors → Text
faulter_errors_to_string encode_err_msg_error = codes "Error decoding request body to RESP values"

pub data AnyError : Type 0 where
  resp_error : RespErrors → AnyError
  faulter_error : FaulterErrors → AnyError
  utf8_error : AnyError
  io_error url_error tls_error other_error : Text → AnyError
