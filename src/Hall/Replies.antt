-- ===== src/Hall/Replies.antt =====
-- What the scenes of the hall share: the packet around a reply of the hall.
pub mod Sockets
use jira_game.Base.{List, [], ℕ, ◌∷◌}
use jira_game.Proto.{HallReturn, Packet, PlayerInfo, hall_return, wait_room}

-- `packet.set_curscene(CS_WaitRoom); packet.set_allocated_hallreturn(&hallReturn);`
abbrev pub hall_packet : HallReturn → Packet
hall_packet h = record { cur_scene = wait_room; reply = hall_return h }

abbrev pub sockets : List PlayerInfo → List ℕ
sockets [] = []
sockets (p ∷ ps) = p.socket ∷ sockets ps
