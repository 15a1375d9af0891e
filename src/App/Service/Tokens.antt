-- ===== src/App/Service/Tokens.antt =====
-- internal/app/live_view_service.go: the token that is made of a view stands for that view.
use browser_automation_byte.Prelude.{
  ℕ, ◌==◌, String, Bool, true, false, ◌≡◌, refl, ap, ◌∙◌, some, str_eq, trim_space, is_space, arith,
}
use browser_automation_byte.Prelude.Trim.{any_char, trim_space_blankless, any_char-append}
use Prim.Native.Char.{code}
use Prim.Native.String.{◌++◌ as str_append}
use text.Mathlib.TextLemmas.{nil-append, cons-append}
use browser_automation_byte.Core.Reply.{ok, ◌>>=◌}
use browser_automation_byte.App.Service.LiveView.{
  LiveView, Codec, cut, sign_live_view, verify_live_view,
}

abbrev pub is_dot : ℕ → Bool
is_dot c = c == 0x2E

dot-append : (b : String) → str_append "." b ≡ String.◌∷◌ "." b
dot-append b = cons-append "." "" b ∙ ap (String.◌∷◌ ".") (nil-append b)

cut-append :
    (a b : String) → any_char is_dot a ≡ false → cut (str_append a (str_append "." b)) ≡ some (a, b)
unfolding cut any_char
cut-append String.[] b h = rw (nil-append (str_append "." b)) (rw (dot-append b) refl)
cut-append (String.◌∷◌ c a) b h =
    let first : (code c == 0x2E) ≡ false = ground arith in
    rw (cons-append c a (str_append "." b))
      (rw (first, cut) (rw (cut-append a b (ground arith)) refl))

-- What the service relies on of base64 and of the comparison of signatures: an encoded text is decoded as
-- it was, has neither dots nor white space, and a signature is equal to itself.
pub record CodecLaws {B : Type 0} (codec : Codec B) : Type 0 where
  pub decode-encode : (b : B) → codec.decode (codec.encode b) ≡ some b
  pub encode-dotless : (b : B) → any_char is_dot (codec.encode b) ≡ false
  pub encode-blankless : (b : B) → any_char is_space (codec.encode b) ≡ false
  pub equal_refl : (b : B) → codec.equal b b ≡ true

module _ {B : Type 0} (codec : Codec B) (laws : CodecLaws codec) where
  token-blankless :
      (a b : B)
      → any_char is_space (str_append (codec.encode a) (str_append "." (codec.encode b))) ≡ false
  unfolding any_char is_space
  token-blankless a b =
      any_char-append is_space (codec.encode a) (str_append "." (codec.encode b))
        (laws.encode-blankless a)
        (any_char-append is_space "." (codec.encode b) refl (laws.encode-blankless b))

  -- A token that is signed for a view is verified as that view, if the view's bytes are read back as the
  -- view and neither they nor their signature are empty.
  pub verify-sign :
      (view : LiveView) (payload : B)
      → codec.marshal view ≡ ok payload
      → codec.unmarshal payload ≡ some view
      → str_eq (codec.encode payload) "" ≡ false
      → str_eq (codec.encode (codec.signature payload)) "" ≡ false
      → (sign_live_view codec view >>= verify_live_view codec) ≡ ok view
  unfolding sign_live_view verify_live_view
  verify-sign view payload m u p s =
      let signature = codec.signature payload in
      let token = str_append (codec.encode payload) (str_append "." (codec.encode signature)) in
      let trimmed : trim_space token ≡ token =
        trim_space_blankless token (token-blankless payload signature) in
      let parts : cut (trim_space token) ≡ some (codec.encode payload, codec.encode signature) =
        ap cut trimmed
        ∙ cut-append (codec.encode payload) (codec.encode signature)
            (laws.encode-dotless payload) in
      rw (m, sign_live_view)
        (rw (parts, verify_live_view)
          (rw (p) (
            rw (s) (
              rw (laws.decode-encode payload) (
                rw (laws.decode-encode signature)
                  (rw (laws.equal_refl signature) (rw (u) refl)))))))
