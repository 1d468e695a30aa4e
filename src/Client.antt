-- ===== src/Client.antt =====
-- client: the bot that plays against the server.
pub mod GameBot
