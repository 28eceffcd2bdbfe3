-- ===== src/Tests/Units/RespTests.antt =====
-- The unit tests of proxy/resp_util.rs.
use red_monkey.Common.{Text, codes, ◌++◌, ◌≡◌, refl, ◌==◌, Bool, true, not, ◌&&◌, text_dec}
use red_monkey.Proxy.RespUtil.{decode, fetch_redis_command, encode_error_message, crlf}
use red_monkey.Tests.Crates.{resp, read_value}
use red_monkey.Tests.Fixtures.{set_mykey}
use red_monkey.Tests.Units.Asserts.{is_ok, ok_and}

abbrev test_decode : Bool
test_decode =
    is_ok (decode resp set_mykey)
    && not (is_ok (decode resp (codes "hello world; this is not a valid resp message")))

test_decode_passes : test_decode ≡ true
unfolding decode read_value text_dec
test_decode_passes = refl

abbrev test_fetch_redis_command : Bool
test_fetch_redis_command =
    ok_and (λ v. ok_and (λ (command : Text). command == codes "set") (fetch_redis_command resp v))
      (decode resp set_mykey)
    && ok_and (λ v. not (is_ok (fetch_redis_command resp v))) (decode resp (codes "$-1" ++ crlf))

test_fetch_redis_command_passes : test_fetch_redis_command ≡ true
unfolding decode fetch_redis_command read_value text_dec
test_fetch_redis_command_passes = refl

abbrev test_encode_error_message : Bool
test_encode_error_message =
    ok_and (λ (v : Text). v == codes "-Error message" ++ crlf)
      (encode_error_message resp (codes "Error message"))

test_encode_error_message_passes : test_encode_error_message ≡ true
unfolding encode_error_message text_dec
test_encode_error_message_passes = refl
