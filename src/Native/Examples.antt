-- ===== src/Native/Examples.antt =====
-- Examples of the native side on concrete values.
mod Stager
mod Talker
mod Start
mod Pool
mod Backend
