-- ===== src/Hall.antt =====
-- The hall, DNW_Server/Server/GameLogic/SceneChain/HallScene.cpp: the distribution of the messages.
-- `Start` keeps the socket and the request in fields; here they are arguments.
pub mod Replies
pub mod RoomId
pub mod Create
pub mod Seats
pub mod Join
pub mod JoinTeam
pub mod Leave
pub mod Ready
pub mod Listing
use jira_game.Base.{Option, if◌then◌else◌, some, ℕ}
use jira_game.World.{World}
use jira_game.Cache.{check_session_valid}
use jira_game.Proto.{HallMsgType, HallRequest}
use Create.{create_room}
use Join.{join_room}
use JoinTeam.{request_team, join_team}
use Leave.{leave_room}
use Ready.{game_waite, game_start}
use Listing.{online_friend, get_room_list}

-- The `switch` on the type of the message.
unfoldable pub dispatch : HallMsgType → ℕ → HallRequest → World → Option World
unfolding create_room join_room request_team join_team leave_room game_waite game_start
    online_friend get_room_list
dispatch HallMsgType.create_room socket req w = create_room socket req w
dispatch HallMsgType.online_friend socket req w = some (online_friend socket req w)
dispatch HallMsgType.request_team socket req w = request_team socket req w
dispatch HallMsgType.join_team socket req w = join_team socket req w
dispatch HallMsgType.join_room socket req w = join_room socket req w
dispatch HallMsgType.get_room_list socket req w = get_room_list socket w
dispatch HallMsgType.leave_room socket req w = leave_room socket w
dispatch HallMsgType.game_waite socket req w = game_waite socket w
dispatch HallMsgType.game_start socket req w = game_start socket w
dispatch _ socket req w = some w

unfoldable pub hall_logic : ℕ → HallRequest → World → Option World
hall_logic socket req w =
    if check_session_valid socket req.session_id w.cache
    then dispatch req.msg_type socket req w
    else some w
