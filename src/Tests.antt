-- ===== src/Tests.antt =====
-- Runs of the modelled code on concrete inputs, and each theorem that has hypotheses applied where
-- they hold.
mod Parsing
mod Window
mod Numbers
mod Services
mod Codecs
mod Redis
mod Daemon
mod Payouts
mod Api
mod Handlers
