-- ===== src/Config.antt =====
-- config/config.go: the configuration that the program reads at its start.
use mandible.Base.{String, List, Bool}
use mandible.Base.Int.{ℤ}
use mandible.Base.Dict.{Dict}
use mandible.Base.Result.{Action, pure, ◌>>=◌}
use mandible.Host.{Host, Bytes, read_file}

pub record Configuration : Type 0 where
  pub max_file_size : ℤ
  pub hash_length : ℤ
  pub user_agent : String
  pub stores : List (Dict String)
  pub port : ℤ
  pub datadog_enabled : Bool
  pub datadog_hostname : String

-- `NewConfiguration`: an error is the end of the program, where there is no file. An error of the
-- decoder is only printed, and what it has read until then is the configuration.
unfoldable pub new_configuration : (Bytes → Configuration) → String → Action Host Configuration
unfolding read_file
new_configuration decode path = do bytes ← read_file path; pure (decode bytes)
