-- ===== src/Transport/Tests.antt =====
-- Runs of the pool and of the check of programs, and the theorems at concrete inputs.

use wrtdeck.Prelude.{
  Dict, get, put, delete, Text, text_eq, nat_key, text_key, codes, ℤ, pos, trim_space, join,
  has_prefix, has_infix, lower_text, ◌+◌, ◌≡◌, refl, Bool, true, false, some, List, [], ◌∷◌, ◌++◌,
}
use wrtdeck.Registry.Model.{MqttSpec}
use wrtdeck.Registry.Samples.{no_urls}
use wrtdeck.Transport.{TransportOptions, default_options}
use wrtdeck.Transport.Exec.{Paths, exec_blocked, executed, exec_do}
use wrtdeck.Transport.Exec.Allowed.{IsAllowed, exec_do-executed}
use wrtdeck.Transport.Pool.{
  mqtt_idle_timeout, Conn, Pool, new_pool, conn_key, new_conn, get_or_create, desired_locked,
}
use wrtdeck.Transport.Pool.Runs.{
  adds, arms, call_conn, PoolCall, obtains, calls, starts_timer, checks, forgets, ends, step_pool,
  run_pool,
}
use wrtdeck.Transport.Pool.Desired.{highest, get-desired_locked}
use wrtdeck.Transport.Pool.Once.{IsServed, get_or_create-IsServed}

-- Paths are clean, and a name is found in /usr/bin.
abbrev plain_paths : Paths
plain_paths = record {
  clean = λ t. t;
  base = λ t. t;
  is_abs = λ t. has_prefix t (codes "/");
  abs = λ t. some t;
  look_path = λ t. some (codes "/usr/bin/" ++ t);
  equal_fold = text_eq;
}

abbrev exec_on : TransportOptions
exec_on = record default_options { exec_enabled = true; exec_blocklist = codes "rm" ∷ [] }

uptime_runs :
    exec_do plain_paths exec_on (some (codes "uptime", codes "-p" ∷ []))
    ≡ executed (codes "/usr/bin/uptime") (codes "-p" ∷ [])
unfolding exec_do trim_space has_prefix lower_text
uptime_runs = refl

rm_blocked :
    exec_do plain_paths exec_on (some (codes "rm", [])) ≡ exec_blocked (codes "/usr/bin/rm")
unfolding exec_do trim_space has_prefix lower_text
rm_blocked = refl

tmp_blocked :
    exec_do plain_paths exec_on (some (codes "/tmp/x", [])) ≡ exec_blocked (codes "/tmp/x")
unfolding exec_do trim_space has_prefix
tmp_blocked = refl

exec_do-executed_example :
    IsAllowed plain_paths exec_on (codes "uptime") (codes "/usr/bin/uptime")
    × (◌≡◌ {A = List Text} (codes "-p" ∷ []) (codes "-p" ∷ []))
exec_do-executed_example =
    exec_do-executed plain_paths exec_on (codes "uptime") (codes "/usr/bin/uptime")
      (codes "-p" ∷ []) (codes "-p" ∷ []) uptime_runs

abbrev broker : MqttSpec
broker = record {
  broker = codes "mqtt://${params.host}";
  mode = [];
  client_id = codes "c";
  username = [];
  password = [];
  topic = codes "t";
  qos = pos 0;
  retain = false;
  payload = [];
  encoding = [];
  timeout_ms = pos 0;
}

abbrev accepts_all : Dict Text ℤ → Bool
accepts_all topics = true

-- Two subscriptions to one topic, and one to another.
abbrev three_subs : Conn
three_subs = call_conn (adds accepts_all (codes "u") (pos 0) 7) (
    call_conn (adds accepts_all (codes "t") (pos 1) 8) (
      call_conn (adds accepts_all (codes "t") (pos 2) 9) (new_conn (codes "b") (codes "k") broker)))

both_wanted : get (codes "t") (desired_locked three_subs) ≡ some (pos 2)
unfolding desired_locked call_conn get put
both_wanted = refl

get-desired_locked_example :
    get (codes "t") (desired_locked three_subs) ≡ highest (codes "t") three_subs.subs
get-desired_locked_example = get-desired_locked (codes "t") three_subs

-- The connection is found idle and forgotten, and a second one is dialled before it is shut down.
abbrev pool_calls : List PoolCall
pool_calls =
    obtains (some broker)
    ∷ calls 0 (arms 5)
    ∷ starts_timer 60000000005 0
    ∷ checks 0
    ∷ forgets 0
    ∷ obtains (some broker)
    ∷ []

abbrev reused : Pool
reused = run_pool no_urls pool_calls new_pool

abbrev fresh_conn : Conn
fresh_conn = new_conn broker.broker (conn_key broker.broker [] [] broker.client_id) broker

first_open :
    get 0 reused.heap
    ≡ some (record fresh_conn { idle = some (5 + mqtt_idle_timeout); fires = false })
unfolding run_pool step_pool get trim_space has_infix put delete join
first_open = refl

second_open : get 1 reused.heap ≡ some fresh_conn
unfolding run_pool step_pool get trim_space has_infix put delete join
second_open = refl

first_closed :
    get 0 (step_pool no_urls (ends 0) reused).heap ≡ some (record fresh_conn { closed = true })
unfolding run_pool step_pool get trim_space has_infix put delete join
first_closed = refl

-- A connection that was found idle is handed out and subscribed to before its timer's function forgets it,
-- and is shut down with the subscription.
abbrev late_calls : List PoolCall
late_calls =
    obtains (some broker)
    ∷ calls 0 (arms 5)
    ∷ starts_timer 60000000005 0
    ∷ checks 0
    ∷ obtains (some broker)
    ∷ calls 0 (adds accepts_all (codes "t") (pos 0) 3)
    ∷ forgets 0
    ∷ ends 0
    ∷ []

cut_off :
    get 0 (run_pool no_urls late_calls new_pool).heap
    ≡ some (record fresh_conn {
      next_sub = 1;
      subs = (1, record { topic = codes "t"; qos = pos 0; handler = 3 }) ∷ [];
      closed = true;
    })
unfolding run_pool step_pool get trim_space has_infix put delete join
cut_off = refl

abbrev asked_again : Pool
asked_again = (get_or_create no_urls (some broker) reused).0

handed_out : get_or_create no_urls (some broker) reused ≡ (asked_again, some 1)
unfolding run_pool step_pool get_or_create get trim_space has_infix put delete join
handed_out = refl

get_or_create-IsServed_example : IsServed no_urls broker asked_again 1
get_or_create-IsServed_example =
    get_or_create-IsServed no_urls pool_calls broker 1 asked_again handed_out
