-- ===== src/Logs/Gateway/Examples.antt =====
-- Runs of src/logs/logs.gateway.ts: the owner of a project follows an execution, and a stranger does not.
use otto_handler.Prelude.{◌≡◌, refl, ◌⊎◌, false, [], ◌∷◌, none, some}
use otto_handler.Prelude.Effects.{Env, Clock, history, resolve}
use otto_handler.Cloudwatch.Examples as BuildRuns
use otto_handler.Cloudwatch.Storage.{get_execution_logs}
use otto_handler.Logs.Gateway
use otto_handler.Logs.Gateway.{Call, Ret, handle_subscribe}
use otto_handler.Logs.Gateway.Access.{joined, Granted, handle_subscribe-Granted}

abbrev env : Env Call Ret
env h (Gateway.logs c) = BuildRuns.env_of (resolve tt) [] c
env h (Gateway.decode_token t) = resolve (some (record { sub = none; user_id = some "u2" }))
env h (Gateway.emit_error m c d) = resolve tt
env h Gateway.disconnect = resolve tt
env h (Gateway.join r) = resolve tt
env h (Gateway.leave r) = resolve tt
env h (Gateway.emit_buffered l) = resolve tt
env h (Gateway.emit_historical l) = resolve tt
env h (Gateway.emit_subscribed i) = resolve tt
env h (Gateway.emit_unsubscribed i) = resolve tt
env h (Gateway.new_log r l) = resolve tt
env h (Gateway.status_changed r i s) = resolve tt
env h (Gateway.execution_complete r i s) = resolve tt

abbrev clock : Clock Call
clock h = 7

-- The owner of the project joins the room.
owner_joins :
    joined (history (handle_subscribe env clock false (some "u2") "e1" [])) ≡ "execution:e1" ∷ []
unfolding joined handle_subscribe get_execution_logs
owner_joins = refl

handle_subscribe-Granted_example :
    (joined (history (handle_subscribe env clock false (some "u9") "e1" [])) ≡ joined [])
    ⊎ Granted env clock (some "u9") "e1" []
handle_subscribe-Granted_example = handle_subscribe-Granted env clock (some "u9") "e1" []
