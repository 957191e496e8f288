-- ===== src/Server/Auth/Grants.antt =====
-- Who gets past server/authenticator.go.
use mandible.Base.{◌≡◌, ◌≢◌, ◌↔◌, true, [], ◌∷◌, arith, eq_iff}
use mandible.Base.{string_eq, inl, inr}
use mandible.Base.Int.{pos, ◌≤ℤ◌}
use mandible.Base.Result.{ok, err, Result-cases}
use mandible.Host.{Bytes}
use mandible.Server.Http.{Request}
use mandible.Server.Auth.{
  AuthenticatedUser, HmacAuthenticator, Codec, mac_equal, expiry, check_grant, get_user,
  new_hmac_authenticator, err_expired_grant, err_empty_auth, err_mac_mismatch, err_no_grant_time,
}

pub mac_equal_iff : (xs ys : Bytes) → (mac_equal xs ys ≡ true) ↔ (xs ≡ ys)
unfolding mac_equal
mac_equal_iff [] [] = ground arith
mac_equal_iff [] (y ∷ ys) = ground arith
mac_equal_iff (x ∷ xs) [] = ground arith
mac_equal_iff (x ∷ xs) (y ∷ ys) = ground (arith, mac_equal_iff xs ys)

-- A grant that a request may rest on: its MAC is that of the header under the key, the header reads
-- as this user, and the user has a name and a grant that has a time and has not run out.
pub record Grants (codec : Codec) (auth : HmacAuthenticator) (req : Request) (u : AuthenticatedUser)
    : Type 0 where
  pub header_given : req.header "Authorization" ≢ ""
  pub mac_given : req.header "X-Authorization-HMAC" ≢ ""
  pub authentic :
      codec.decode_base64 (req.header "X-Authorization-HMAC")
      ≡ codec.hmac auth.key (req.header "Authorization")
  pub readable : codec.unmarshal_user (req.header "Authorization") ≡ ok u
  pub named : u.user_id ≢ ""
  pub timed : u.grant_time ≢ pos 0
  pub current : auth.now ≤ℤ expiry u

expired_ne_others :
    (err_empty_auth ≢ err_expired_grant)
    × (err_no_grant_time ≢ err_expired_grant)
    × (err_mac_mismatch ≢ err_expired_grant)
expired_ne_others = ground (
  arith,
  eq_iff err_empty_auth err_expired_grant,
  eq_iff err_no_grant_time err_expired_grant,
  eq_iff err_mac_mismatch err_expired_grant,
)

module _ (codec : Codec) (auth : HmacAuthenticator) where
  -- Which users `check_grant` lets through.
  check_grant_iff :
      (u v : AuthenticatedUser)
      → (check_grant codec auth u ≡ ok v)
        ↔ ((u ≡ v) × (u.user_id ≢ "") × (u.grant_time ≢ pos 0) × (auth.now ≤ℤ expiry u))
  unfolding check_grant
  check_grant_iff u v = ground (arith, eq_iff u.user_id "")

  module _ (req : Request) (u : AuthenticatedUser) where
    get_user-Grants : get_user codec auth req ≡ ok u → Grants codec auth req u
    unfolding get_user
    get_user-Grants h = elim (Result-cases (codec.unmarshal_user (req.header "Authorization"))) [
      | inl (v, e) ↦ ground (
        arith,
        eq_iff (req.header "Authorization") "",
        eq_iff (req.header "X-Authorization-HMAC") "",
        mac_equal_iff (codec.hmac auth.key (req.header "Authorization"))
            (codec.decode_base64 (req.header "X-Authorization-HMAC")),
        check_grant_iff v u,
      )
      | inr e ↦ ground (
        arith,
        eq_iff (req.header "Authorization") "",
        mac_equal_iff (codec.hmac auth.key (req.header "Authorization"))
            (codec.decode_base64 (req.header "X-Authorization-HMAC")),
      )
    ]

    Grants-get_user : Grants codec auth req u → get_user codec auth req ≡ ok u
    unfolding get_user
    Grants-get_user g = ground (
      arith,
      eq_iff (req.header "Authorization") "",
      eq_iff (req.header "X-Authorization-HMAC") "",
      mac_equal_iff (codec.hmac auth.key (req.header "Authorization"))
          (codec.decode_base64 (req.header "X-Authorization-HMAC")),
      check_grant_iff u u,
    )

    -- The authenticator accepts a request as a user's exactly if it rests on a grant for that user.
    pub get_user_iff : (get_user codec auth req ≡ ok u) ↔ Grants codec auth req u
    get_user_iff = (get_user-Grants, Grants-get_user)

-- An authenticator as `NewHMACAuthenticatorSHA256` makes it finds no grant expired that ends after
-- the zero time: its clock is never set.
pub get_user-new_hmac_authenticator :
    (codec : Codec) (key : Bytes) (req : Request)
    → ((u : AuthenticatedUser)
        → codec.unmarshal_user (req.header "Authorization") ≡ ok u
        → pos 0 ≤ℤ expiry u)
    → get_user codec (new_hmac_authenticator key) req ≢ err err_expired_grant
unfolding get_user check_grant new_hmac_authenticator
get_user-new_hmac_authenticator codec key req h =
    elim (Result-cases (codec.unmarshal_user (req.header "Authorization"))) [
      | inl (u, e) ↦ ground (arith, h u e, expired_ne_others)
      | inr e ↦ ground (arith, expired_ne_others)
    ]
