-- ===== src/MainScene.antt =====
-- DNW_Server/Server/GameLogic/SceneChain/MainScene.cpp: the running game.
pub mod Rsync
pub mod GameOver
use jira_game.Base.{Option, if◌then◌else◌, some, ℕ}
use jira_game.World.{World}
use jira_game.Cache.{check_session_valid}
use jira_game.Proto.{GameMainMsgType, GameMainRequest}
use Rsync.{rsync}
use GameOver.{game_over}

-- `RsyncAttr` and `RsyncStatus` are the same code but for the type of their reply.
unfoldable pub dispatch : GameMainMsgType → ℕ → GameMainRequest → World → Option World
unfolding rsync game_over
dispatch GameMainMsgType.rsync_attr socket req w = rsync GameMainMsgType.rsync_attr socket req w
dispatch GameMainMsgType.rsync_status socket req w = rsync GameMainMsgType.rsync_status socket req w
dispatch GameMainMsgType.game_over socket req w = game_over socket w
dispatch _ socket req w = some w

unfoldable pub main_logic : ℕ → GameMainRequest → World → Option World
main_logic socket req w =
    if check_session_valid socket req.session_id w.cache
    then dispatch req.msg_type socket req w
    else some w
