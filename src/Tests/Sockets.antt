-- ===== src/Tests/Sockets.antt =====
-- The theorems on the array of sockets, for a fourth client.
use jira_game.Base.{[], ◌∷◌}
use jira_game.Tests.Worlds.{lobby}
use jira_game.Server.{Server, accept_client}

abbrev three : Server
three = record { world = lobby; cli_sockets = 10 ∷ 20 ∷ 30 ∷ [] }

abbrev four : Server
four = record { world = accept_client 40 lobby; cli_sockets = 10 ∷ 20 ∷ 30 ∷ 40 ∷ [] }
