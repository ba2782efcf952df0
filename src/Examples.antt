-- ===== src/Examples.antt =====
-- Tests on concrete inputs, and the properties at inputs that meet their hypotheses.
mod Samples
mod Security
mod Validation
mod Database
mod Query
mod Audit
mod Tools
mod Config
mod Server
mod Auth
mod RateLimit
mod Watching
mod Serving
mod Tokens
mod Requests
mod Interleaved
mod Constants
