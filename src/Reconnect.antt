-- ===== src/Reconnect.antt =====
-- reconnect.go: the retry on a one-shot client.
pub mod Laws
use caddy_storage_redis.Prelude.{
  none, ℕ, ◌+◌, ◌%◌, ◌^◌, Bytes, List, [], ◌∷◌, ◌++◌, Bool, true, false, if◌then◌else◌, codes,
}
use caddy_storage_redis.Go.Strings.{has_substring}
use caddy_storage_redis.Go.Errors.{Error, new_error, chain}
use caddy_storage_redis.Exec.{Result, ok, err, out_of_fuel, Exec}
use caddy_storage_redis.Platform.{Platform}
use caddy_storage_redis.Client.{Machine, RedisStorage, build_client, close}

-- `isClientClosedErr`
unfoldable pub is_client_closed_err : Error → Bool
unfolding has_substring
is_client_closed_err e = has_substring e.text (codes "client is closed")

-- The text of a failed reconnect, with the original error in the chain.
abbrev pub reconnect_failed : Bytes → Error → Error → Error
reconnect_failed prefix ferr e = record {
  text =
      prefix
      ++ (codes ": " ++ (ferr.text ++ (codes " (original op error: " ++ (e.text ++ codes ")"))));
  identity = none;
  wraps = chain e;
}

module _ (P : Platform) where
  -- `reconnectCount.Add(1)`
  abbrev pub count_reconnect : Machine P → Machine P
  count_reconnect s = record s { reconnect_count = (s.reconnect_count + 1) % 2 ^ 64 }

  module _ {A : Type 0} (op : P.Client → Exec (Machine P) A) where
    -- `defer fresh.Close()`
    abbrev then_close : P.Client → Result A × Machine P → Result A × Machine P
    then_close fresh (r, s) = (r, close P fresh s)

    -- The second attempt, once the client is built or not, after the operation failed with `e`.
    retry_on : Error → Result P.Client × Machine P → Result A × Machine P
    retry_on e (ok fresh, s) = then_close fresh (op fresh (count_reconnect s))
    retry_on e (err ferr, s) =
        let prefix = codes "redis storage: reconnect after closed client failed" in
        (err (reconnect_failed prefix ferr e), s)
    retry_on e (out_of_fuel, s) = (out_of_fuel, s)

    after_op : RedisStorage P → Result A × Machine P → Result A × Machine P
    unfolding retry_on
    after_op rs (err e, s) =
        if is_client_closed_err e then retry_on e (build_client P rs.config s) else (err e, s)
    after_op rs (ok a, s) = (ok a, s)
    after_op rs (out_of_fuel, s) = (out_of_fuel, s)

    -- `withReconnectOnClosed`
    unfoldable pub with_reconnect_on_closed : RedisStorage P → Exec (Machine P) A
    unfolding after_op
    with_reconnect_on_closed rs s = after_op rs (op rs.client s)
