-- ===== src/JiraEvent.antt =====
-- DNW_Server/Server/JiraEvent/JiraEvent.cpp: the observers, one for each socket. The observers are
-- the client entities, so `NotifyClient` is the one of ClientEntity.cpp: it sends on the entity's
-- own socket. `CSceneBase::sendMsg` of SceneBase.cpp only passes the call on.
use jira_game.Base.{List, [], erase, insert, lookup, none, some, ℕ, ◌++◌, ◌∷◌}
use jira_game.Proto.{Packet}
use jira_game.World.{World}
pub mod Laws

unfoldable pub add_listenner : ℕ → ℕ → World → World
add_listenner socket sock_client w = record w {
  listeners = insert socket (some sock_client) w.listeners;
}

unfoldable pub remover_listenner : ℕ → World → World
remover_listenner socket w = record w { listeners = erase socket w.listeners }

unfoldable pub notify_client : ℕ → Packet → World → World
notify_client sock_client p w = record w { sent = w.sent ++ (sock_client, p) ∷ [] }

-- `m_CObCServers[socket]` adds a null pointer where the key is missing.
unfoldable pub send_msg : ℕ → Packet → World → World
unfolding notify_client
send_msg socket p w = elim (lookup socket w.listeners) [
  | none ↦ record w { listeners = insert socket none w.listeners }
  | some none ↦ w
  | some (some sock_client) ↦ notify_client sock_client p w
]

-- `BroadcastNotifyClient` starts a thread that runs the empty function `Send`.
unfoldable pub broadcast_notify_client : World → World
broadcast_notify_client w = w

unfoldable pub send_broad_cast : ℕ → World → World
unfolding broadcast_notify_client
send_broad_cast socket w = elim (lookup socket w.listeners) [
  | none ↦ record w { listeners = insert socket none w.listeners }
  | some none ↦ w
  | some (some _) ↦ broadcast_notify_client w
]

-- The loop `for (auto elment : …) sendMsg(elment.socket(), sendBuffer, size);`
unfoldable pub send_all : List ℕ → Packet → World → World
send_all [] p w = w
send_all (s ∷ ss) p w = send_all ss p (send_msg s p w)
