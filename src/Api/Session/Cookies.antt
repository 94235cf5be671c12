-- ===== src/Api/Session/Cookies.antt =====
-- What is read back from a session cookie.
use Prim.Native.String.{◌++◌ as join}
use mathlib.Core.Option.{some-injective}
use hermes_managed_network.Prelude.{
  ℕ, String, ◌≡◌, refl, sym, ap, ◌∙◌, true, false, none, some, List, [], ◌∷◌, ◌++◌, not, ◌==◌,
  eq_refl, inl, inr, Bool-cases, eq→path, append_assoc,
}
use hermes_managed_network.Json.{ℤ}
use hermes_managed_network.Text.{split, join_with}
use hermes_managed_network.Text.Split.{
  lacks_colon, is_nil, split_nil, split-append, split_lacks, join_with-split,
}
use hermes_managed_network.Schema.{ok}
use hermes_managed_network.Api.Session.{
  Codec, Secrets, session_secret_of, rsplit_parts, payload_of, session_cookie_value, with_int,
  decoded, decode_session_cookie, is_expired, is_ascii, compare_digest, signed_with, authenticated,
  is_authenticated,
}

-- what Python documents: decoding undoes encoding, `int` reads a decimal text back, neither this text
-- nor a hexadecimal digest has a colon, and such a digest is ASCII
pub record IsCodec (codec : Codec) : Type 0 where
  pub decode-encode : (text : String) → codec.decode (codec.encode text) ≡ some text
  pub decode_empty : codec.decode "" ≡ some ""
  pub to_int-decimal : (n : ℤ) → codec.to_int (codec.decimal n) ≡ some n
  pub decimal_lacks : (n : ℤ) → lacks_colon (codec.decimal n) ≡ true
  pub hmac_lacks : (key text : String) → lacks_colon (codec.hmac_sha256 key text) ≡ true
  pub hmac_ascii : (key text : String) → is_ascii (codec.hmac_sha256 key text) ≡ true

rsplit_three :
    (parts : List String) (t signature : String)
    → is_nil parts ≡ false
    → rsplit_parts (parts ++ t ∷ signature ∷ []) ≡ some (join_with ":" parts, t, signature)
unfolding is_nil rsplit_parts join_with
rsplit_three [] t signature h = cc
rsplit_three (a ∷ []) t signature h = refl
rsplit_three (a ∷ b ∷ []) t signature h = refl
rsplit_three (a ∷ b ∷ c ∷ []) t signature h = refl
rsplit_three (a ∷ b ∷ c ∷ d ∷ rest) t signature h =
    rw (rsplit_three (b ∷ c ∷ d ∷ rest) t signature refl)

no_parts : rsplit_parts (split ":" "") ≡ none
unfolding rsplit_parts split
no_parts = refl

module _ (codec : Codec) (is_codec : IsCodec codec) (username : String) (issued_at : ℤ)
    (secret : String) where
  abbrev signature : String
  signature = codec.hmac_sha256 secret (payload_of codec username issued_at)

  abbrev raw : String
  raw = join (payload_of codec username issued_at) (join ":" signature)

  split-raw : split ":" raw ≡ split ":" username ++ codec.decimal issued_at ∷ signature ∷ []
  split-raw =
      split-append (payload_of codec username issued_at) signature
      ∙ rw (
        split-append username (codec.decimal issued_at),
        split_lacks (codec.decimal issued_at) (is_codec.decimal_lacks issued_at),
        split_lacks signature (is_codec.hmac_lacks secret (payload_of codec username issued_at)),
        append_assoc (split ":" username) (codec.decimal issued_at ∷ []) (signature ∷ []),
      )

  parts_of_raw : rsplit_parts (split ":" raw) ≡ some (username, codec.decimal issued_at, signature)
  parts_of_raw = rw split-raw (
      rsplit_three (split ":" username) (codec.decimal issued_at) signature (split_nil username)
      ∙ rw (join_with-split username))

  read_back :
      decode_session_cookie codec (session_cookie_value codec username issued_at secret)
      ≡ some (username, issued_at, signature)
  unfolding decode_session_cookie session_cookie_value decoded with_int
  read_back = rw (is_codec.decode-encode raw, parts_of_raw, is_codec.to_int-decimal issued_at)

  no_empty_cookie : session_cookie_value codec username issued_at secret ≡ "" → ⊥
  unfolding session_cookie_value
  no_empty_cookie e =
      let same : some raw ≡ some "" =
        sym (is_codec.decode-encode raw) ∙ ap codec.decode e ∙ is_codec.decode_empty in
      cc (parts_of_raw, no_parts, ap (λ x. rsplit_parts (split ":" x)) (some-injective raw "" same))

  not_empty : (session_cookie_value codec username issued_at secret == "") ≡ false
  not_empty = elim (Bool-cases (session_cookie_value codec username issued_at secret == "")) [
    | inr e ↦ e
    | inl e ↦ absurd (no_empty_cookie (eq→path _ "" e))
  ]

  -- Where base64, `int` and the digest are as documented, and the secret is the one that is set, the
  -- cookie that is issued for a user name and a time authenticates exactly as long as it is not expired,
  -- whatever the user name is.
  pub session_roundtrip :
      (secrets : Secrets) (now : ℕ)
      → session_secret_of secrets ≡ ok secret
      → is_authenticated codec secrets now
          (some (session_cookie_value codec username issued_at secret))
        ≡ ok (not (is_expired codec issued_at now))
  unfolding is_authenticated authenticated signed_with compare_digest
  session_roundtrip secrets now set =
      rw
        (
          not_empty,
          read_back,
          set,
          is_codec.hmac_ascii secret (payload_of codec username issued_at),
          eq_refl,
        )
        (elim (Bool-cases (is_expired codec issued_at now)) [ inl e ↦ rw e | inr e ↦ rw e ])
