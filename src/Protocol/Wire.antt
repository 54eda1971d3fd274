-- ===== src/Protocol/Wire.antt =====
-- The JSON that the derived `Serialize` of core/protocol.rs writes. The step between JSON values and
-- their text is serde_json's.
use lobbylink.Base.{Option, none, some, Text, codes}
use lobbylink.Options.{
  CreateOptions, ReconnectPolicy, token_only, token_or_claim_after_timeout, claim_after_timeout,
  host_approval,
}
use lobbylink.Protocol.Values.{Json, Fields, bool, num, str, obj, end, field}
use lobbylink.Protocol.{
  SignalPayload, offer, answer, ice, unknown, ClientMessage, join, claim_slot, signal, leave,
}

-- `skip_serializing_if = "Option::is_none"`
abbrev optional : {A : Type 0} → Text → (A → Json) → Option A → Fields → Fields
optional name write none rest = rest
optional name write (some a) rest = field name (write a) rest

policy_json : ReconnectPolicy → Json
policy_json token_only = str (codes "token-only")
policy_json token_or_claim_after_timeout = str (codes "token-or-claim-after-timeout")
policy_json claim_after_timeout = str (codes "claim-after-timeout")
policy_json host_approval = str (codes "host-approval")

create_json : CreateOptions → Json
unfolding policy_json
create_json c = obj (
    field (codes "maxPlayers") (num c.max_players) (
      field (codes "waitUntilFull") (bool c.wait_until_full) (
        field (codes "allowLateJoin") (bool c.allow_late_join) (
          field (codes "allowReconnect") (bool c.allow_reconnect) (
            field (codes "allowReplacement") (bool c.allow_replacement) (
              optional (codes "reconnectPolicy") policy_json c.reconnect_policy
                (optional (codes "claimAfterMs") num c.claim_after_ms end)))))))

unfoldable pub payload_json : SignalPayload → Json
payload_json (offer sdp) =
    obj (field (codes "kind") (str (codes "offer")) (field (codes "sdp") (str sdp) end))
payload_json (answer sdp) =
    obj (field (codes "kind") (str (codes "answer")) (field (codes "sdp") (str sdp) end))
payload_json (ice candidate) =
    obj (
      field (codes "kind") (str (codes "ice"))
        (optional (codes "candidate") (λ c. c) candidate end))
payload_json unknown = obj (field (codes "kind") (str (codes "unknown")) end)

unfoldable pub client_message_json : ClientMessage → Json
unfolding payload_json create_json
client_message_json (join code app_id resume_token create) = obj (
    field (codes "type") (str (codes "join")) (
      field (codes "code") (str code) (
        optional (codes "appId") str app_id (
          optional (codes "resumeToken") str resume_token
            (optional (codes "create") create_json create end)))))
client_message_json (claim_slot code player_id app_id) = obj (
    field (codes "type") (str (codes "claim-slot")) (
      field (codes "code") (str code)
        (field (codes "playerId") (num player_id) (optional (codes "appId") str app_id end))))
client_message_json (signal to payload) = obj (
    field (codes "type") (str (codes "signal"))
      (field (codes "to") (num to) (field (codes "payload") (payload_json payload) end)))
client_message_json leave = obj (field (codes "type") (str (codes "leave")) end)
