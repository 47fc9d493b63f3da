-- ===== src/Message.antt =====
-- Rendering of one IRC message in the browser: client/js/helpers/ircmessageparser and the part of
-- client/js/helpers/parse.ts that calls it. A text is the list of its UTF-16 code units.
pub mod Parts
pub mod Fragment
pub mod Merge
pub mod Style
pub mod Find
pub mod Parse
