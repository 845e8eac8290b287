-- ===== src/Hall/Replies/Sockets.antt =====
-- The sockets of a list of members, as a map over the list.
use jira_game.Base.{List, [], ap, map, refl, ◌∷◌, ◌≡◌}
use jira_game.Proto.{PlayerInfo}
use jira_game.Hall.Replies.{sockets}

pub sockets_lem : (ps : List PlayerInfo) → sockets ps ≡ map (λ p. p.socket) ps
sockets_lem [] = refl
sockets_lem (p ∷ ps) = ap (λ ss. p.socket ∷ ss) (sockets_lem ps)
