-- ===== src/Examples/SessionRuns.antt =====
-- Runs of the session cookie, over a codec that writes numbers in unary.
use hermes_managed_network.Prelude.{
  ℕ, zero, suc, String, ◌≡◌, refl, ap, true, Option, some, if◌then◌else◌, not,
}
use hermes_managed_network.Json.{ℤ, pos, negsuc}
use hermes_managed_network.Text.{is_char, count_chars, strip_text, rstrip_text}
use hermes_managed_network.Text.Split.{lacks_colon}
use hermes_managed_network.Schema.{ok}
use hermes_managed_network.Api.Session.{
  Codec, Secrets, session_secret_of, session_cookie_value, is_ascii, is_expired, is_authenticated,
}
use hermes_managed_network.Api.Session.Cookies.{IsCodec, session_roundtrip}

unary : ℕ → String
unary zero = String.[]
unary (suc n) = String.◌∷◌ "1" (unary n)

unary_text : ℤ → String
unary_text (pos n) = unary n
unary_text (negsuc n) = String.◌∷◌ "-" (unary n)

unary_int : String → Option ℤ
unary_int String.[] = some (pos zero)
unary_int (String.◌∷◌ c s) =
    if is_char "-" c then some (negsuc (count_chars s)) else some (pos (suc (count_chars s)))

count-unary : (n : ℕ) → count_chars (unary n) ≡ n
unfolding unary count_chars
count-unary zero = refl
count-unary (suc n) = ap suc (count-unary n)

lacks-unary : (n : ℕ) → lacks_colon (unary n) ≡ true
unfolding unary lacks_colon is_char
lacks-unary zero = refl
lacks-unary (suc n) = lacks-unary n

abbrev plain : Codec
plain = record {
  encode = λ text. text;
  decode = λ text. some text;
  hmac_sha256 = λ _ _. "c0de";
  to_int = λ text. unary_int text;
  decimal = λ n. unary_text n;
}

int-unary : (n : ℤ) → unary_int (unary_text n) ≡ some n
unfolding unary_int unary_text unary is_char
int-unary (pos zero) = refl
int-unary (pos (suc n)) = ap (λ k. some (pos (suc k))) (count-unary n)
int-unary (negsuc n) = ap (λ k. some (negsuc k)) (count-unary n)

lacks-unary_text : (n : ℤ) → lacks_colon (unary_text n) ≡ true
unfolding unary_text lacks_colon is_char
lacks-unary_text (pos n) = lacks-unary n
lacks-unary_text (negsuc n) = lacks-unary n

plain-IsCodec : IsCodec plain
unfolding lacks_colon is_char is_ascii
plain-IsCodec = record {
  decode-encode = λ _. refl;
  decode_empty = refl;
  to_int-decimal = int-unary;
  decimal_lacks = lacks-unary_text;
  hmac_lacks = λ _ _. refl;
  hmac_ascii = λ _ _. refl;
}

abbrev secrets : Secrets
secrets = record { session_secret = "s"; password_hash = "" }

secret_set : session_secret_of secrets ≡ ok "s"
unfolding session_secret_of strip_text rstrip_text
secret_set = refl

session_roundtrip_example :
    is_authenticated plain secrets 50_000 (some (session_cookie_value plain "ops:1" (pos 9) "s"))
    ≡ ok (not (is_expired plain (pos 9) 50_000))
session_roundtrip_example =
    session_roundtrip plain plain-IsCodec "ops:1" (pos 9) "s" secrets 50_000 secret_set
