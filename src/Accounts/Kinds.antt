-- ===== src/Accounts/Kinds.antt =====
-- The kinds of the tokens of `app/core/security.py`.
use news2reel.Base.{
  ◌≡◌, refl, sym, ◌∙◌, true, none, some, arith, ℤ, Text, text_eq, text_eq_iff, Bool-cases,
  Option-cases, inl, inr,
}
use news2reel.Core.Config.{Settings}
use news2reel.Model.{Instant}
use news2reel.Accounts.{Crypto, Claims, TokenKind, access, refresh_kind, kind_text, decode_token}

module _ (crypto : Crypto) {F : Type 0} (settings : Settings F) (now : Instant) (token : Text) where
  one_kind :
      (stored : Text) (a b : TokenKind)
      → text_eq stored (kind_text a) ≡ true
      → text_eq stored (kind_text b) ≡ true
      → kind_text a ≡ kind_text b
  one_kind stored a b e f =
      sym ((text_eq_iff stored (kind_text a)).0 e) ∙ (text_eq_iff stored (kind_text b)).0 f

  accepted-kind :
      (kind : TokenKind) (id : ℤ)
      → decode_token crypto settings now token kind ≡ some id
      → (claims : Claims) × (crypto.decode token settings.jwt_secret now ≡ some claims)
        × (claims.kind ≡ kind_text kind)
  unfolding decode_token
  accepted-kind kind id h = elim (Option-cases (crypto.decode token settings.jwt_secret now)) [
    | inl e ↦ absurd (ground arith)
    | inr (claims, e) ↦ elim (Bool-cases (text_eq claims.kind (kind_text kind))) [
      | inl same ↦ (claims, e, (text_eq_iff claims.kind (kind_text kind)).0 same)
      | inr other ↦ absurd (ground arith)
    ]
  ]

  -- No token at all passes as both kinds: one that is accepted as an access token is refused as a
  -- refresh token, and the other way round, whoever made it and whenever it is presented.
  decode_token-one_kind :
      (id : ℤ)
      → ((decode_token crypto settings now token access ≡ some id)
          → decode_token crypto settings now token refresh_kind ≡ none)
        × ((decode_token crypto settings now token refresh_kind ≡ some id)
            → decode_token crypto settings now token access ≡ none)
  unfolding decode_token text_eq
  decode_token-one_kind id = (
    λ h. let (claims, e, same) = accepted-kind access id h in rw (e, decode_token) (rw same refl),
    λ h.
        let (claims, e, same) = accepted-kind refresh_kind id h in
        rw (e, decode_token) (rw same refl),
  )
