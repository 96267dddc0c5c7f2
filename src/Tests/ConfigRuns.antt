-- ===== src/Tests/ConfigRuns.antt =====
-- A .env file for backend/upload-service that names a variable which is set, and has a line that is wrong.
use anti_fraud_detector.Prelude.{String, Bool, false, ◌≡◌, refl, some, [], ◌∷◌}
use anti_fraud_detector.Prelude.Dict.{lookup}
use anti_fraud_detector.Upload.Config.Env.{Env, EnvFile, opened, load_dot_env, load_dot_env-keeps}

abbrev never : String → String → Bool
never key value = false

abbrev environment : Env
environment = ("SERVER_PORT", ":9000") ∷ []

abbrev file : EnvFile
file = opened ("# local" ∷ "SERVER_PORT=:8081" ∷ "wrong" ∷ []) false

port_set : lookup "SERVER_PORT" environment ≡ some ":9000"
unfolding lookup
port_set = refl

load_dot_env-keeps_example :
    lookup "SERVER_PORT" (load_dot_env never file environment).1 ≡ some ":9000"
load_dot_env-keeps_example =
    load_dot_env-keeps never file environment "SERVER_PORT" ":9000" port_set
