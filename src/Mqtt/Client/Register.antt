-- ===== src/Mqtt/Client/Register.antt =====
-- internal/mqtt/publish.go: the identifiers of the requests that wait.
use wrtdeck.Prelude.{
  ◌==◌, if◌then◌else◌, is_some, Dict, get, put, delete, Text, nat_key, text_key, ℕ, zero, suc, ◌+◌,
  ◌%◌, ◌^◌, Bool, true, false, [],
}
use wrtdeck.Mqtt.Client.{Client}

-- `next_id++`, on 16 bits, which skips 0.
abbrev pub next : ℕ → ℕ
next id = let up = (id + 1) % 2 ^ 16 in if up == 0 then 1 else up

-- The loop of `register`, over the rounds that are left: the last identifier it tried, with whether it
-- is free.
unfoldable pub register_loop : ℕ → ℕ → Dict ℕ Text → ℕ × Bool
register_loop zero id pending = (id, false)
register_loop (suc rounds) id pending =
    let rest = register_loop rounds (next id) pending in
    if is_some (get (next id) pending) then rest else (next id, true)

pub data Registered : Type 0 where
  not_connected exhausted : Registered
  registered : ℕ → Registered

abbrev pub registered_as : ℕ × Bool → Client → Client × Registered
registered_as (id, free) c =
    if free
    then (record c { next_id = id; pending = put id [] c.pending }, registered id)
    else (record c { next_id = id }, exhausted)

unfoldable pub register : Client → Client × Registered
unfolding register_loop
register c =
    if c.connected
    then registered_as (register_loop 65535 c.next_id c.pending) c
    else (c, not_connected)

unfoldable pub unregister : ℕ → Client → Client
unregister packet_id c = record c { pending = delete packet_id c.pending }
