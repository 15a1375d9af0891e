-- ===== src/Tests/Tokens.antt =====
-- A codec of views whose bytes are the view's or a signature.
use browser_automation_byte.Prelude.{Bool, true, false, String, ◌≡◌, refl, some, str_eq, is_space}
use browser_automation_byte.Prelude.Trim.{any_char}
use browser_automation_byte.Core.Reply.{ok, ◌>>=◌}
use browser_automation_byte.App.Service.LiveView.{Codec, sign_live_view, verify_live_view}
use browser_automation_byte.App.Service.Tokens.{CodecLaws, is_dot, verify-sign}
use browser_automation_byte.Tests.LiveView.{view}

abbrev text_of : Bool → String
text_of true = "dmlldw"
text_of false = "c2ln"

abbrev same : Bool → Bool → Bool
same true true = true
same true false = false
same false true = false
same false false = true

abbrev codec : Codec Bool
codec = record {
  marshal = λ v. ok true;
  unmarshal = λ b. some view;
  encode = text_of;
  decode = λ t. some (str_eq t "dmlldw");
  signature = λ b. false;
  equal = same;
}

decode-encode_bool : (b : Bool) → codec.decode (codec.encode b) ≡ some b
decode-encode_bool true = refl
decode-encode_bool false = refl

equal_refl_bool : (b : Bool) → codec.equal b b ≡ true
equal_refl_bool true = refl
equal_refl_bool false = refl

encode-dotless_bool : (b : Bool) → any_char is_dot (codec.encode b) ≡ false
unfolding any_char
encode-dotless_bool true = refl
encode-dotless_bool false = refl

encode-blankless_bool : (b : Bool) → any_char is_space (codec.encode b) ≡ false
unfolding any_char is_space
encode-blankless_bool true = refl
encode-blankless_bool false = refl

codec-CodecLaws : CodecLaws codec
codec-CodecLaws = record {
  decode-encode = decode-encode_bool;
  encode-dotless = encode-dotless_bool;
  encode-blankless = encode-blankless_bool;
  equal_refl = equal_refl_bool;
}

verify-sign_example : (sign_live_view codec view >>= verify_live_view codec) ≡ ok view
verify-sign_example = verify-sign codec codec-CodecLaws view true refl refl refl refl
