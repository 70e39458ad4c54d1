-- ===== src/Tests/Final.antt =====
-- A run of finalizeConfiguration on the defaults.
use caddy_storage_redis.Prelude.{[], ◌∷◌, ◌++◌, true, none, ◌≡◌, refl, codes, length, equal}
use caddy_storage_redis.Exec.{Result, ok}
use caddy_storage_redis.Config.{Config, new}
use caddy_storage_redis.Caddyfile.Final.{Outside, bind, finalize_configuration}
use caddy_storage_redis.Caddyfile.Finalized.{IsFinal, count_of, finalize_configuration-IsFinal}

-- Nothing is replaced, and every host is known.
abbrev plainly : Outside
plainly = record {
  replace_all = λ v d. v;
  split_host_port = λ v. none;
  join_host_port = λ h p. h ++ (b':' ∷ p);
  is_ip = λ v. true;
  lookup_host = λ v. true;
  trim_space = λ v. v;
  quote = λ v. v;
  number = λ n. [];
}

abbrev given : Config
given = record new { host = codes "a" ∷ codes "b" ∷ []; port = codes "1" ∷ [] }

abbrev or_given : Result Config → Config
or_given (ok c) = c
or_given _ = given

abbrev final : Config
final = or_given (finalize_configuration plainly given)

finalized : finalize_configuration plainly given ≡ ok final
unfolding finalize_configuration bind equal
finalized = refl

finalize_configuration-IsFinal_example :
    IsFinal plainly given final
    × (length final.address ≡ count_of given.address given.host given.port)
finalize_configuration-IsFinal_example =
    finalize_configuration-IsFinal plainly given final finalized
