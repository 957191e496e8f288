-- ===== src/Server/Auth.antt =====
-- server/authenticator.go
pub mod Grants
use mandible.Base.{String, Bool, true, false, ◌&&◌, ◌||◌, [], ◌∷◌, ◌^◌}
use mandible.Base.{◌==◌, nat_eq, string_eq, if◌then◌else◌}
use mandible.Base.Int.{ℤ, pos, ◌+ℤ◌, ◌*ℤ◌, ltb_ℤ, wrap64, int_eq}
use mandible.Base.Result.{Error, Result, ok, err}
use mandible.Host.{Bytes}
use mandible.Server.Http.{Request}

abbrev pub err_no_authentication : Error
err_no_authentication = "No authentication scheme was configured."

abbrev pub err_empty_auth : Error
err_empty_auth = "Empty or missing authentication header."

abbrev pub err_no_grant_time : Error
err_no_grant_time = "No grant time specified in the authentication grant."

abbrev pub err_expired_grant : Error
err_expired_grant = "The authentication grant has expired."

abbrev pub err_mac_mismatch : Error
err_mac_mismatch = "The provided message authentication code is invalid for the given message."

-- A time is the nanoseconds since the zero time of Go.
pub record AuthenticatedUser : Type 0 where
  pub user_id : String
  pub grant_time : ℤ
  pub grant_duration_seconds : ℤ

-- The interface `Authenticator`, by its one method.
abbrev pub Authenticator : Type 0
Authenticator = Request → Result AuthenticatedUser

unfoldable pub passthrough_authenticator : Authenticator
passthrough_authenticator req = err err_no_authentication

-- crypto/hmac with SHA-256 (key, then message), encoding/base64 with what was decoded before an
-- error, and encoding/json at the type `AuthenticatedUser`.
pub record Codec : Type 0 where
  pub hmac : Bytes → String → Bytes
  pub decode_base64 : String → Bytes
  pub unmarshal_user : String → Result AuthenticatedUser

pub record HmacAuthenticator : Type 0 where
  pub key : Bytes
  pub now : ℤ

abbrev pub set_time : ℤ → HmacAuthenticator → HmacAuthenticator
set_time t auth = record auth { now = t }

-- The time is left at the zero time.
unfoldable pub new_hmac_authenticator : Bytes → HmacAuthenticator
new_hmac_authenticator key = record { key = key; now = pos 0 }

-- `hmac.Equal`
unfoldable pub mac_equal : Bytes → Bytes → Bool
mac_equal [] [] = true
mac_equal (x ∷ xs) (y ∷ ys) = x == y && mac_equal xs ys
mac_equal _ _ = false

-- `GrantTime.Add(time.Duration(GrantDurationSeconds) * time.Second)`, the product an int64.
unfoldable pub expiry : AuthenticatedUser → ℤ
unfolding wrap64
expiry u = u.grant_time +ℤ wrap64 (u.grant_duration_seconds *ℤ pos (10 ^ 9))

module _ (codec : Codec) (auth : HmacAuthenticator) where
  -- What follows a MAC that fits and a user that can be read.
  unfoldable pub check_grant : AuthenticatedUser → Result AuthenticatedUser
  check_grant u =
      if u.user_id == ""
      then err err_mac_mismatch
      else if u.grant_time == pos 0
      then err err_no_grant_time
      else if ltb_ℤ (expiry u) auth.now
      then err err_expired_grant
      else ok u

  unfoldable pub get_user : Authenticator
  get_user req =
      let auth_header = req.header "Authorization" in
      let provided = req.header "X-Authorization-HMAC" in
      if auth_header == "" || provided == ""
      then err err_empty_auth
      else if mac_equal (codec.hmac auth.key auth_header) (codec.decode_base64 provided)
      then elim (codec.unmarshal_user auth_header) [
        | ok u ↦ check_grant u
        | _ ↦ err err_mac_mismatch
      ]
      else err err_mac_mismatch
