-- ===== src/Accounts.antt =====
-- The scenes for accounts, which work on the database: DNW_Server/Server/GameLogic/SceneChain,
-- LoginScene.cpp, RegisterScene.cpp, CreateScene.cpp and SelectScene.cpp.
pub mod Rows
pub mod Statements
pub mod Login
pub mod Register
pub mod CreateRole
pub mod SelectRole
pub mod Returning
