-- ===== src/Transcript.antt =====
-- The agent transcript (`SQLiteAgentTranscriptStore` of xauusd/local_state.py).
mod Store
mod Family
mod Prune
mod Examples
