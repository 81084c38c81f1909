-- ===== src/Discord.antt =====
-- The Discord bot: src/app/integrations/discord/. Every method holds the lock of its map from
-- beginning to end, so that a run is a sequence of calls, each of which is handed the instant that
-- it reads. An instant is a number of nanoseconds.
pub mod RateLimit
pub mod Context
pub mod Safety
mod Tests
