-- ===== src/Messages.antt =====
-- The generated message classes of DNW_Server/include/protoFiles: how they are parsed, written,
-- measured and merged.
pub mod Coded
pub mod Parser
pub mod Writer
pub mod Class
pub mod Sizes
pub mod Enums
pub mod Kit
pub mod Position3D
pub mod PlayerInfo
pub mod InviteInfo
pub mod RoomInfo
pub mod HallInfo
pub mod KeepAliveMsg
pub mod LoginRequest
pub mod LoginReturn
pub mod RegisterRequest
pub mod RegisterReturn
pub mod CreateRoleRequest
pub mod CreateRoleReturn
pub mod SelectRoleRequest
pub mod SelectRoleReturn
pub mod HallRequest
pub mod HallReturn
pub mod GameMainRequest
pub mod GameMainReturn
pub mod Packet
pub mod SendBuffer
pub mod UnPacket
pub mod View
pub mod Requests
