-- ===== src/World.antt =====
-- The state that the scenes share: the singletons' fields, `rand()`, and what has been sent.
--
-- `rand_of n` is what the n-th call of `rand()` returns, and `drawn` counts the calls so far.
-- `stack` is how deep a recursion may go on the thread's stack; going deeper ends the process.
-- A scene returns `Option World`: `none` is the end of the process, by a null pointer, an index
-- out of range, a write to freed memory or an exhausted stack.
use jira_game.Base.{Dict, List, Option, ℕ}
use jira_game.Proto.{CurScene, Packet}
use jira_game.Cache.{Cache}

-- `CKeepAliveInfo`: its socket and the scene of the last heartbeat it was given.
pub record KeepAliveInfo : Type 0 where
  pub client_socket : ℕ
  pub cur_scene : CurScene

pub record World : Type 0 where
  pub cache : Cache
  -- `CJiraEvent::m_CObCServers`: an observer is given by the socket that it sends on
  pub listeners : Dict (Option ℕ)
  -- `CKeepAlive::keepAliveInfoMap`, and the heap that its pointers lead to
  pub keep_alive_info_map : Dict ℕ
  pub heap : Dict KeepAliveInfo
  pub next_address : ℕ
  -- the `static DWORD preTime` of the timer threads, once it is set
  pub pre_time : Option ℕ
  pub rand_of : ℕ → ℕ
  pub drawn : ℕ
  pub stack : ℕ
  -- what `send` has been given, oldest first: a socket and the packet
  pub sent : List (ℕ × Packet)

-- A call of a method of `CCache`.
abbrev pub on_cache : (Cache → Cache) → World → World
on_cache f w = record w { cache = f w.cache }
