-- ===== src/Canary.antt =====
-- The canary's decision source (xauusd/canary_strategy.py).
mod Source
mod Once
mod Examples
