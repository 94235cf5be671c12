-- ===== src/Api/Session.antt =====
-- The session cookie of the web console, src/hermes_managed_network/api.py. Of Python come the parameters:
-- base64 of a text in UTF-8, where decoding may raise; the HMAC as a hexadecimal text; `int` of a text,
-- which may raise; and the decimal text of a number.
pub mod Cookies
use Prim.Native.Char.{code}
use Prim.Native.String.{◌++◌ as join}
use hermes_managed_network.Prelude.{
  ℕ, suc, ◌+◌, String, Bool, true, false, Option, none, some, List, [], ◌∷◌, ◌==◌, ◌&&◌, ltb,
  if◌then◌else◌,
}
use hermes_managed_network.Json.{ℤ, pos, negsuc}
use hermes_managed_network.Text.{split, join_with, strip_text}
use hermes_managed_network.Schema.{Result, ok, raised, type_error, runtime_error}

abbrev pub session_ttl_seconds : ℕ
session_ttl_seconds = 43_200

pub record Codec : Type 0 where
  pub encode : String → String
  pub decode : String → Option String
  pub hmac_sha256 : String → String → String
  pub to_int : String → Option ℤ
  pub decimal : ℤ → String

-- the values of HMN_WEB_SESSION_SECRET and HMN_WEB_PASSWORD_HASH, "" where they are not set
pub record Secrets : Type 0 where
  pub session_secret : String
  pub password_hash : String

abbrev not_empty : String → Bool
not_empty text = if text == "" then false else true

unfoldable pub session_secret_of : Secrets → Result String
session_secret_of secrets =
    let secret = strip_text secrets.session_secret in
    let admin_hash = strip_text secrets.password_hash in
    if not_empty secret
    then ok secret
    else if not_empty admin_hash
    then ok admin_hash
    else raised runtime_error

abbrev before_part : String → Option (String × String × String) → Option (String × String × String)
before_part a none = none
before_part a (some (b, c, d)) = some (join a (join ":" b), c, d)

abbrev int_between : String → Option ℤ → String → Option (String × ℤ × String)
int_between username none signature = none
int_between username (some issued_at) signature = some (username, issued_at, signature)

-- what `rsplit(":", 2)` gives: the text before the last two colons, and the two parts after them
unfoldable pub rsplit_parts : List String → Option (String × String × String)
rsplit_parts (a ∷ b ∷ c ∷ []) = some (a, b, c)
rsplit_parts (a ∷ b ∷ c ∷ d ∷ rest) = before_part a (rsplit_parts (b ∷ c ∷ d ∷ rest))
rsplit_parts _ = none

unfoldable pub is_ascii : String → Bool
is_ascii String.[] = true
is_ascii (String.◌∷◌ c s) = ltb (code c) 128 && is_ascii s

-- hmac.compare_digest(a, b) of two texts, which must be ASCII
unfoldable pub compare_digest : String → String → Result Bool
compare_digest a b = if is_ascii a && is_ascii b then ok (a == b) else raised type_error

module _ (codec : Codec) where
  abbrev pub payload_of : String → ℤ → String
  payload_of username issued_at = join username (join ":" (codec.decimal issued_at))

  unfoldable pub session_cookie_value : String → ℤ → String → String
  session_cookie_value username issued_at secret =
      let payload = payload_of username issued_at in
      codec.encode (join payload (join ":" (codec.hmac_sha256 secret payload)))

  unfoldable pub with_int : Option (String × String × String) → Option (String × ℤ × String)
  with_int none = none
  with_int (some (username, issued_at_raw, signature)) =
      int_between username (codec.to_int issued_at_raw) signature

  unfoldable pub decoded : Option String → Option (String × ℤ × String)
  decoded none = none
  decoded (some raw) = with_int (rsplit_parts (split ":" raw))

  unfoldable pub decode_session_cookie : String → Option (String × ℤ × String)
  decode_session_cookie value = decoded (codec.decode value)

  -- issued_at + SESSION_TTL_SECONDS < now
  unfoldable pub is_expired : ℤ → ℕ → Bool
  is_expired (pos n) now = ltb (n + session_ttl_seconds) now
  is_expired (negsuc n) now = ltb session_ttl_seconds (now + suc n)

  unfoldable pub signed_with : String → ℤ → String → Result String → Result Bool
  signed_with username issued_at signature (raised e) = raised e
  signed_with username issued_at signature (ok secret) =
      compare_digest signature (codec.hmac_sha256 secret (payload_of username issued_at))

  unfoldable pub authenticated : Secrets → ℕ → Option (String × ℤ × String) → Result Bool
  authenticated secrets now none = ok false
  authenticated secrets now (some (username, issued_at, signature)) =
      if is_expired issued_at now
      then ok false
      else signed_with username issued_at signature (session_secret_of secrets)

  unfoldable pub is_authenticated : Secrets → ℕ → Option String → Result Bool
  is_authenticated secrets now none = ok false
  is_authenticated secrets now (some cookie) =
      if cookie == "" then ok false else authenticated secrets now (decode_session_cookie cookie)
